-- ===== src/Files/Copy.antt =====
-- What a copy takes out of a file: the chunks of its reads until one gives no bytes.
use hubtain.Common.{
  ℕ, suc, ◌+◌, ◌≤◌, ◌<◌, ◌≡◌, refl, sym, ap, ◌∙◌, min, List, [], ◌∷◌, ◌++◌, map, append-nil, Option,
  some, length, concat, All, arith, take, length-append, length-take,
}
use hubtain.EncryptedStream.{PollResult, poll_ok, poll_err, poll_pending, poll_panic}
use hubtain.Files.{AsyncFileReader, FileSystem, FilePath, open_reader, clone, poll_read}
use hubtain.Files.Streams.{read_many, bytes_of, left, poll_read-left}

-- The chunks that a reader gets until a read gives no bytes, which it takes for the end, or fails.
abbrev pub drained : List (PollResult (List ℕ)) → List (List ℕ)
drained [] = []
drained (poll_ok [] ∷ rs) = []
drained (poll_ok (b ∷ bs) ∷ rs) = (b ∷ bs) ∷ drained rs
drained (poll_err e ∷ rs) = []
drained (poll_pending ∷ rs) = []
drained (poll_panic ∷ rs) = []

-- A reader just opened has the whole file before it, and so has its clone, which is the same reader.
pub open_reader-left :
    (fs : FileSystem) (path : FilePath) (content : List ℕ) (reader : AsyncFileReader)
    → fs path ≡ some content
    → open_reader fs path ≡ some reader
    → (left reader ≡ content)
      × (clone fs reader ≡ some reader)
      × (reader.file_size ≡ length content)
unfolding open_reader clone left
open_reader-left fs path content reader e o = ground arith

-- Reads into a buffer of this size, of which the system gives so much.
abbrev pub reads : ℕ → List ℕ → List (ℕ × Option ℕ)
reads size = map (λ k. (size, some k))

-- A chunk with bytes, and no more than the buffer holds.
abbrev pub Filled : ℕ → List ℕ → Type 0
Filled size c = (0 < length c) × (length c ≤ size)

empty : {A : Type 0} (xs : List A) → length xs ≡ 0 → xs ≡ []
empty [] h = refl
empty (x ∷ xs) h = absurd (omega arith)

-- The first chunk and the rest.
drained_step :
    (size k : ℕ) (self : AsyncFileReader) (got : List ℕ) (rs : List (PollResult (List ℕ)))
    (next : List ℕ)
    → take (min size k) (left self) ≡ got
    → got ++ next ≡ left self
    → 0 < size
    → 0 < k
    → (length next < length (left self)
        → (concat (drained rs) ≡ next) × All (Filled size) (drained rs))
    → (concat (drained (poll_ok got ∷ rs)) ≡ left self)
      × All (Filled size) (drained (poll_ok got ∷ rs))
drained_step size k self [] rs next e s hs hk later =
    let n : min (min size k) (length (left self)) ≡ 0 =
      sym (length-take (min size k) (left self)) ∙ ap length e in
    (sym (empty (left self) (omega arith)), tt)
drained_step size k self (b ∷ bs) rs next e s hs hk later =
    let cut : suc (length bs) ≡ min (min size k) (length (left self)) =
      ap length (sym e) ∙ length-take (min size k) (left self) in
    let whole : suc (length bs) + length next ≡ length (left self) =
      sym (length-append (b ∷ bs) next) ∙ ap length s in
    let (rest, fill) = later (omega arith) in
    (ap (◌++◌ (b ∷ bs)) rest ∙ s, ((omega arith, omega arith), fill))

poll_read-take :
    (self : AsyncFileReader) (size k : ℕ)
    → (poll_read self size (some k)).0 ≡ poll_ok (take (min size k) (left self))
unfolding poll_read left
poll_read-take self size k = refl

-- If the system gives a byte at least on each read, and there are as many reads as bytes left, a copy
-- takes all that is left, in chunks with bytes of which none is longer than the buffer.
pub drained-read_many :
    (size : ℕ) (readies : List ℕ) (self : AsyncFileReader)
    → 0 < size
    → All (λ k. 0 < k) readies
    → length (left self) ≤ length readies
    → (concat (drained (read_many self (reads size readies)).0) ≡ left self)
      × All (Filled size) (drained (read_many self (reads size readies)).0)
unfolding read_many
drained-read_many size [] self hs h fuel = (sym (empty (left self) (omega arith)), tt)
drained-read_many size (k ∷ ks) self hs (hk, h) fuel =
    let next = (poll_read self size (some k)).1 in
    let got = poll_read-take self size k in
    let split : take (min size k) (left self) ++ left next ≡ left self =
      ap (◌++ left next) (sym (append-nil _) ∙ sym (ap bytes got))
      ∙ poll_read-left self size (some k) in
    rw got (
      drained_step size k self _ (read_many next (reads size ks)).0 (left next) refl split hs hk
        (λ less. drained-read_many size ks next hs h (omega arith)))
  where
    bytes : PollResult (List ℕ) → List ℕ
    bytes r = bytes_of (r ∷ [])
