-- ===== src/Session/Plain.antt =====
-- server/mod.rs and client.rs on a server without encryption: `futures::io::copy` on the stream itself, at
-- both ends.
pub mod Download
use hubtain.Common.{
  ℕ, zero, suc, ◌+◌, ◌-◌, ◌≤◌, ◌<◌, ◌≡◌, refl, sym, ap, ◌∙◌, false, true, Bool, if◌then◌else◌, min,
  List, [], ◌∷◌, ◌++◌, append-nil, append_assoc, map, arith, length, take, drop, concat, All,
  length-append, length-drop, take-append-drop,
}
use hubtain.Client.{Copied, went_well, waiting}
use hubtain.Stream.{Fut, IoKind, Sock, value, poll, ready, write_all, Arrival, arrive, arrive_all}
use hubtain.Stream.Steps.{poll-write_enough}

-- The server's copy: each chunk is written whole, and the bytes are counted.
pub copy_to_stream : ℕ → List (List ℕ) → Fut IoKind ℕ
copy_to_stream amt [] = ready amt
copy_to_stream amt (c ∷ cs) = write_all c (λ e. e) (copy_to_stream (amt + length c) cs)

-- The client's copy: reads into a buffer of this size, of which the system gives so much of what has
-- come. A read that gives nothing ends the copy if the stream has ended, and waits if not.
unfoldable pub copy_from_stream : ℕ → List ℕ → List ℕ → Bool → Copied
copy_from_stream size [] came eof = record { chunks = []; ends = waiting }
copy_from_stream size (k ∷ ks) came eof =
    let got = take (min size k) came in
    let rest = copy_from_stream size ks (drop (min size k) came) eof in
    elim got [
      | [] ↦ record { chunks = []; ends = if eof then went_well else waiting }
      | b ∷ bs ↦ record { chunks = (b ∷ bs) ∷ rest.chunks; ends = rest.ends }
    ]

pub copy_to_stream_all :
    (cs : List (List ℕ)) (amt : ℕ) (s : Sock)
    → s.broken ≡ false
    → length (concat cs) ≤ s.room
    → poll (copy_to_stream amt cs) s ≡ (
      value (amt + length (concat cs)),
      record s { outbox = s.outbox ++ concat cs; room = s.room - length (concat cs) },
    )
unfolding copy_to_stream poll
copy_to_stream_all [] amt s b h =
    λ i. (value (amt_all i), record s { outbox = sym (append-nil s.outbox) i; room = room_all i })
  where
    amt_all : amt ≡ amt + 0
    amt_all = omega arith

    room_all : s.room ≡ s.room - 0
    room_all = omega arith
copy_to_stream_all (c ∷ cs) amt s b h =
    let total = length-append c (concat cs) in
    poll-write_enough c (λ e. e) (copy_to_stream (amt + length c) cs) s b (omega (arith, total))
    ∙ copy_to_stream_all cs (amt + length c) _ b (omega (arith, total))
    ∙ λ i. (
      value (count i),
      record s { outbox = append_assoc s.outbox c (concat cs) i; room = spent i },
    )
  where
    count : amt + length c + length (concat cs) ≡ amt + length (c ++ concat cs)
    count = omega (arith, length-append c (concat cs))

    spent : s.room - length c - length (concat cs) ≡ s.room - length (c ++ concat cs)
    spent = omega (arith, length-append c (concat cs))

-- A read that gives something is a first part of what came.
copied_step :
    (n : ℕ) (came : List ℕ) (rest : Copied)
    → 0 < n
    → 0 < length came
    → concat rest.chunks ≡ drop n came
    → rest.ends ≡ went_well
    → let c : Copied = elim (take n came) [
      | [] ↦ record { chunks = []; ends = went_well }
      | b ∷ bs ↦ record { chunks = (b ∷ bs) ∷ rest.chunks; ends = rest.ends }
    ] in
      (concat c.chunks ≡ came) × (c.ends ≡ went_well)
copied_step zero came rest h m e w = absurd (omega arith)
copied_step (suc n) [] rest h m e w = absurd (omega arith)
copied_step (suc n) (b ∷ bs) rest h m e w =
    (ap (λ ys. b ∷ (take n bs ++ ys)) e ∙ ap (◌∷◌ b) (take-append-drop n bs), w)

take_nil : (n : ℕ) → take {A = ℕ} n [] ≡ []
take_nil zero = refl
take_nil (suc n) = refl

copied_end :
    (got : List ℕ) (rest : Copied)
    → got ≡ []
    → let c : Copied = elim got [
      | [] ↦ record { chunks = []; ends = went_well }
      | b ∷ bs ↦ record { chunks = (b ∷ bs) ∷ rest.chunks; ends = rest.ends }
    ] in
      (concat c.chunks ≡ []) × (c.ends ≡ went_well)
copied_end [] rest e = (refl, refl)
copied_end (b ∷ bs) rest e = absurd (cc)

-- On a stream that has ended, with one read more than bytes, each of which gives a byte at least while
-- there is one, the copy takes all, and ends well.
pub copy_from_stream-concat :
    (size : ℕ) (readies came : List ℕ)
    → 0 < size
    → All (λ k. 0 < k) readies
    → length came < length readies
    → (concat (copy_from_stream size readies came true).chunks ≡ came)
      × ((copy_from_stream size readies came true).ends ≡ went_well)
unfolding copy_from_stream
copy_from_stream-concat size [] came hs h fuel = absurd (omega arith)
copy_from_stream-concat size (k ∷ ks) [] hs (hk, h) fuel =
    copied_end (take (min size k) []) (copy_from_stream size ks (drop (min size k) []) true)
      (take_nil (min size k))
copy_from_stream-concat size (k ∷ ks) (b ∷ bs) hs (hk, h) fuel =
    let n = min size k in
    let came = b ∷ bs in
    let (all, well) =
      copy_from_stream-concat size ks (drop n came) hs h (omega (arith, length-drop n came)) in
    copied_step n came (copy_from_stream size ks (drop n came) true) (omega arith) (omega arith) all
      well

pub arrive_all-inbox :
    (ds : List Arrival) (s : Sock)
    → (arrive_all s ds).inbox ≡ s.inbox ++ concat (map (λ (d : Arrival). d.bytes) ds)
arrive_all-inbox [] s = sym (append-nil s.inbox)
arrive_all-inbox (d ∷ ds) s = arrive_all-inbox ds (arrive s d) ∙ append_assoc s.inbox d.bytes _
