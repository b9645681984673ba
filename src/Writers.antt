-- ===== src/Writers.antt =====
-- The trait AsyncWrite, as the program uses it: the polls of a writer with the states `W`. Writers that
-- wrap another take its polls and give theirs.
pub mod Progress
use hubtain.Common.{ℕ, List, [], ◌∷◌, Bool, if◌then◌else◌}
use hubtain.Stream.{Sock, other}
use hubtain.EncryptedStream.{Noise, PollResult, poll_ok, poll_err}
use hubtain.EncryptedStream.Server.{EncryptedWriteStream, poll_write as encrypted_poll_write}
use hubtain.Files.{AsyncFileWriter, ProgressWriter, progress_poll_write}

pub record AsyncWriter (W : Type 0) : Type 0 where
  pub poll_write : W → List ℕ → PollResult ℕ × W
  pub poll_flush : W → PollResult (Unit {0}) × W
  pub poll_close : W → PollResult (Unit {0}) × W

-- `AsyncFileWriter`: a flush of the file succeeds or fails, and a close does nothing.
unfoldable file_poll_flush : AsyncFileWriter → Bool → PollResult (Unit {0}) × AsyncFileWriter
file_poll_flush self succeeds = (if succeeds then poll_ok tt else poll_err other, self)

unfoldable file_poll_close : AsyncFileWriter → PollResult (Unit {0}) × AsyncFileWriter
file_poll_close self = (poll_ok tt, self)

-- `ProgressWriter` forwards a flush and a close.
progress_poll_flush :
    {W : Type 0}
    → (W → PollResult (Unit {0}) × W)
    → ProgressWriter W
    → PollResult (Unit {0}) × ProgressWriter W
progress_poll_flush flush self =
    let (r, inner) = flush self.inner in (r, record self { inner = inner })

progress_poll_close :
    {W : Type 0}
    → (W → PollResult (Unit {0}) × W)
    → ProgressWriter W
    → PollResult (Unit {0}) × ProgressWriter W
progress_poll_close close self =
    let (r, inner) = close self.inner in (r, record self { inner = inner })

pub progress_writer : {W : Type 0} → AsyncWriter W → AsyncWriter (ProgressWriter W)
unfolding progress_poll_write progress_poll_flush progress_poll_close
progress_writer w = record {
  poll_write = progress_poll_write w.poll_write;
  poll_flush = progress_poll_flush w.poll_flush;
  poll_close = progress_poll_close w.poll_close;
}

-- `EncryptedWriteStream` forwards a flush and a close to its socket.
module _ (n : Noise) (socket : AsyncWriter Sock) where
  encrypted_poll_flush : EncryptedWriteStream n → PollResult (Unit {0}) × EncryptedWriteStream n
  encrypted_poll_flush self =
      let (r, sock) = socket.poll_flush self.underlying in (r, record self { underlying = sock })

  encrypted_poll_close : EncryptedWriteStream n → PollResult (Unit {0}) × EncryptedWriteStream n
  encrypted_poll_close self =
      let (r, sock) = socket.poll_close self.underlying in (r, record self { underlying = sock })

  unfoldable encrypted_writer : AsyncWriter (EncryptedWriteStream n)
  unfolding encrypted_poll_flush encrypted_poll_close
  encrypted_writer = record {
    poll_write = encrypted_poll_write n;
    poll_flush = encrypted_poll_flush;
    poll_close = encrypted_poll_close;
  }

-- What a user of a writer does with it, and what it gets.
pub data WriterCall : Type 0 where
  write : List ℕ → WriterCall
  flush close : WriterCall

pub data WriterReply : Type 0 where
  wrote : PollResult ℕ → WriterReply
  finished : PollResult (Unit {0}) → WriterReply

module _ {W : Type 0} (w : AsyncWriter W) where
  abbrev pub call : W → WriterCall → WriterReply × W
  call self (write buf) = let (r, self) = w.poll_write self buf in (wrote r, self)
  call self flush = let (r, self) = w.poll_flush self in (finished r, self)
  call self close = let (r, self) = w.poll_close self in (finished r, self)

  pub run_calls : W → List WriterCall → List WriterReply × W
  run_calls self [] = ([], self)
  run_calls self (c ∷ cs) =
      let (r, next) = call self c in let (rs, last) = run_calls next cs in (r ∷ rs, last)
