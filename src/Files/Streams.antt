-- ===== src/Files/Streams.antt =====
-- What a file gives over many calls.
use hubtain.Common.{
  ℕ, ◌≡◌, refl, ap, ◌∙◌, min, Option, none, some, List, [], ◌∷◌, ◌++◌, append_assoc, append-nil,
  length, take, drop, drop-add, drop-length-take, take-append-drop,
}
use hubtain.EncryptedStream.{PollResult, poll_ok, poll_err, poll_pending, poll_panic}
use hubtain.Files.{AsyncFileReader, FileSystem, FilePath, poll_read, clone, open_reader}

-- The results of reads into buffers of these sizes.
unfoldable pub read_many :
    AsyncFileReader → List (ℕ × Option ℕ) → List (PollResult (List ℕ)) × AsyncFileReader
read_many self [] = ([], self)
read_many self ((room, ready) ∷ calls) =
    let (r, self) = poll_read self room ready in
    let (rs, self) = read_many self calls in (r ∷ rs, self)

-- The bytes that the successful results carry.
abbrev pub bytes_of : List (PollResult (List ℕ)) → List ℕ
bytes_of [] = []
bytes_of (poll_ok bs ∷ rs) = bs ++ bytes_of rs
bytes_of (poll_err e ∷ rs) = bytes_of rs
bytes_of (poll_pending ∷ rs) = bytes_of rs
bytes_of (poll_panic ∷ rs) = bytes_of rs

-- What is left to read.
unfoldable pub left : AsyncFileReader → List ℕ
left self = drop self.file.position self.file.bytes

pub poll_read-left :
    (self : AsyncFileReader) (room : ℕ) (ready : Option ℕ)
    → bytes_of ((poll_read self room ready).0 ∷ []) ++ left (poll_read self room ready).1
      ≡ left self
unfolding poll_read left
poll_read-left self room none = refl
poll_read-left self room (some ready) =
    let k = min room ready in
    let at = self.file.position in
    let bytes = self.file.bytes in
    rw
      (
        append-nil,
        drop-add at (length (take k (drop at bytes))) bytes,
        drop-length-take k (drop at bytes),
      )
      (take-append-drop k (drop at bytes))

bytes_of_cons :
    (r : PollResult (List ℕ)) (rs : List (PollResult (List ℕ)))
    → bytes_of (r ∷ rs) ≡ bytes_of (r ∷ []) ++ bytes_of rs
bytes_of_cons (poll_ok bs) rs = rw append-nil
bytes_of_cons (poll_err e) rs = refl
bytes_of_cons poll_pending rs = refl
bytes_of_cons poll_panic rs = refl

read_many-left :
    (calls : List (ℕ × Option ℕ)) (self : AsyncFileReader)
    → bytes_of (read_many self calls).0 ++ left (read_many self calls).1 ≡ left self
unfolding read_many
read_many-left [] self = refl
read_many-left ((room, ready) ∷ calls) self =
    let (r, next) = poll_read self room ready in
    rw (bytes_of_cons r (read_many next calls).0, append_assoc)
      (ap (◌++◌ (bytes_of (r ∷ []))) (read_many-left calls next) ∙ poll_read-left self room ready)

-- Of a file with these bytes a reader can be opened, and its clone is this reader again, at the first
-- byte; it knows the file's length; and any reads, into whatever buffers and however many bytes the
-- system gives at a time, give the bytes from the first on, in order and without a gap.
read_many-bytes :
    (fs : FileSystem) (path : FilePath) (content : List ℕ) (calls : List (ℕ × Option ℕ))
    → fs path ≡ some content
    → (reader : AsyncFileReader) × (open_reader fs path ≡ some reader)
      × (clone fs reader ≡ some reader)
      × (reader.file_size ≡ length content)
      × ((back : List ℕ) × (bytes_of (read_many reader calls).0 ++ back ≡ content))
unfolding open_reader clone left
read_many-bytes fs path content calls e =
    let reader : AsyncFileReader = record {
      file = record { bytes = content; position = 0 };
      file_size = length content;
      orig_path = path;
    } in
    (reader, rw e, rw e, refl, (left (read_many reader calls).1, read_many-left calls reader))
