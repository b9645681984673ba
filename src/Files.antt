-- ===== src/Files.antt =====
-- filereader.rs, filewriter.rs and progresswriter.rs: files as asynchronous streams. The file system
-- gives the bytes of a path, or none; what a call on an open file does is an argument.
pub mod Streams
pub mod Copy
use hubtain.Common.{ℕ, ◌+◌, ◌%◌, ◌^◌, min, List, [], ◌++◌, Option, none, some, length, take, drop}
use hubtain.Stream.{other}
use hubtain.EncryptedStream.{PollResult, poll_ok, poll_err, poll_pending, poll_panic}
use mathlib.Core.Option

abbrev pub FilePath : Type 0
FilePath = List ℕ

abbrev pub FileSystem : Type 0
FileSystem = FilePath → Option (List ℕ)

-- An open file: its bytes and the position of the next read.
pub record File : Type 0 where
  pub bytes : List ℕ
  pub position : ℕ

-- `File::open`
abbrev pub open_file : FileSystem → FilePath → Option File
open_file fs path = Option.map (λ bytes. record { bytes = bytes; position = 0 }) (fs path)

pub record AsyncFileReader : Type 0 where
  pub file : File
  pub file_size : ℕ
  pub orig_path : FilePath

-- `AsyncFileReader::new`
unfoldable pub open_reader : FileSystem → FilePath → Option AsyncFileReader
open_reader fs path =
    Option.map
      (λ (file : File). record { file = file; file_size = length file.bytes; orig_path = path })
      (open_file fs path)

-- `clone` opens the path once more; `none` is its panic. It keeps the size that it was told.
pub clone : FileSystem → AsyncFileReader → Option AsyncFileReader
clone fs self =
    Option.map
      (λ (file : File). record {
        file = file;
        file_size = self.file_size;
        orig_path = self.orig_path;
      })
      (open_file fs self.orig_path)

-- `poll_read` into a buffer of `room` bytes, of which the operating system fills `ready` at most, or
-- fails (`none`). `Ok(bytes_read)` is here the bytes that were read.
unfoldable pub poll_read : AsyncFileReader → ℕ → Option ℕ → PollResult (List ℕ) × AsyncFileReader
poll_read self room none = (poll_err other, self)
poll_read self room (some ready) =
    let got = take (min room ready) (drop self.file.position self.file.bytes) in
    (
      poll_ok got,
      record self { file = record self.file { position = self.file.position + length got } },
    )

-- `bytes_writen` is an `AtomicUsize`.
pub record AsyncFileWriter : Type 0 where
  pub file : List ℕ
  pub bytes_writen : ℕ

-- `AsyncFileWriter::new`, once `File::create` has made an empty file.
abbrev pub new_writer : AsyncFileWriter
new_writer = record { file = []; bytes_writen = 0 }

-- `fetch_add` wraps round.
abbrev pub fetch_add : ℕ → ℕ → ℕ
fetch_add counter n = (counter + n) % 2 ^ 64

-- `poll_write`: the operating system takes `accepts` bytes at most, or fails.
unfoldable pub poll_write : AsyncFileWriter → List ℕ → Option ℕ → PollResult ℕ × AsyncFileWriter
poll_write self buf none = (poll_err other, self)
poll_write self buf (some accepts) =
    let written = take accepts buf in
    (
      poll_ok (length written),
      record {
        file = self.file ++ written;
        bytes_writen = fetch_add self.bytes_writen (length written);
      },
    )

-- A `ProgressWriter` over a writer with the states `W`.
pub record ProgressWriter (W : Type 0) : Type 0 where
  pub inner : W
  pub bytes_writen : ℕ

-- `poll_write` of the wrapper, over that of what it wraps.
unfoldable pub progress_poll_write :
    {W : Type 0}
    → (W → List ℕ → PollResult ℕ × W)
    → ProgressWriter W
    → List ℕ
    → PollResult ℕ × ProgressWriter W
progress_poll_write write self buf =
    let (res, inner) = write self.inner buf in
    elim res [
      | poll_ok written ↦ (
        poll_ok written,
        record { inner = inner; bytes_writen = fetch_add self.bytes_writen written },
      )
      | poll_err e ↦ (poll_err e, record self { inner = inner })
      | poll_pending ↦ (poll_pending, record self { inner = inner })
      | poll_panic ↦ (poll_panic, record self { inner = inner })
    ]
