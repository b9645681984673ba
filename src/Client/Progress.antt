-- ===== src/Client/Progress.antt =====
-- client.rs (`progress_counter`, and the `select!` of `download_to_file`): the position of the progress bar
-- while the copy writes.
use hubtain.Common.{
  ℕ, ◌%◌, ◌^◌, ◌≤◌, ◌<◌, ◌≡◌, List, [], ◌∷◌, Option, none, some, arith, length, length-append, take,
}
use hubtain.Files.{AsyncFileWriter, new_writer, poll_write}

-- The two futures in `select!` take turns: the delay is over, and the counter is read; or the copy writes a
-- buffer, of which the system takes so much, or fails.
pub data Turn : Type 0 where
  delay_over : Turn
  copy_writes : List ℕ → Option ℕ → Turn

-- What `set_position` is given, and the writer in the end.
unfoldable pub progress_counter : AsyncFileWriter → List Turn → List ℕ × AsyncFileWriter
progress_counter self [] = ([], self)
progress_counter self (delay_over ∷ turns) =
    let (shown, last) = progress_counter self turns in (self.bytes_writen ∷ shown, last)
progress_counter self (copy_writes buf accepts ∷ turns) =
    progress_counter (poll_write self buf accepts).1 turns

-- The counter counts the file's bytes.
abbrev Counts : AsyncFileWriter → Type 0
Counts self = self.bytes_writen ≡ length self.file % 2 ^ 64

-- Numbers that do not fall, from one bound to another.
abbrev pub IsRising : ℕ → List ℕ → ℕ → Type 0
IsRising low [] high = low ≤ high
IsRising low (x ∷ xs) high = (low ≤ x) × IsRising x xs high

write-Counts :
    (self : AsyncFileWriter) (buf : List ℕ) (accepts : Option ℕ)
    → Counts self
    → Counts (poll_write self buf accepts).1
      × (length self.file ≤ length (poll_write self buf accepts).1.file)
unfolding poll_write
write-Counts self buf none h = (h, omega arith)
write-Counts self buf (some accepts) h =
    let grows = length-append self.file (take accepts buf) in
    (omega (arith, grows), omega (arith, grows))

-- The file does not get shorter.
grows_lem :
    (turns : List Turn) (self : AsyncFileWriter)
    → Counts self
    → length self.file ≤ length (progress_counter self turns).1.file
unfolding progress_counter
grows_lem [] self h = omega arith
grows_lem (delay_over ∷ turns) self h = grows_lem turns self h
grows_lem (copy_writes buf accepts ∷ turns) self h =
    let (counts, longer) = write-Counts self buf accepts h in
    omega (arith, longer, grows_lem turns (poll_write self buf accepts).1 counts)

weaken : (low mid high : ℕ) (xs : List ℕ) → low ≤ mid → IsRising mid xs high → IsRising low xs high
weaken low mid high [] h r = omega arith
weaken low mid high (x ∷ xs) h (a, r) = (omega arith, r)

rising :
    (turns : List Turn) (self : AsyncFileWriter)
    → Counts self
    → length (progress_counter self turns).1.file < 2 ^ 64
    → IsRising
        (length self.file)
        (progress_counter self turns).0
        (length (progress_counter self turns).1.file)
unfolding progress_counter
rising [] self h small = omega arith
rising (delay_over ∷ turns) self h small =
    let now : self.bytes_writen ≡ length self.file =
      omega (arith, h, grows_lem turns self h, small) in
    (
      omega (arith, now),
      weaken self.bytes_writen (length self.file) _ _ (omega (arith, now))
          (rising turns self h small),
    )
rising (copy_writes buf accepts ∷ turns) self h small =
    let (counts, longer) = write-Counts self buf accepts h in
    weaken _ _ _ _ longer (rising turns (poll_write self buf accepts).1 counts small)

-- However the writes of the copy and the ticks of the progress bar take turns, errors and short writes
-- among them: if the file is shorter than 2 ^ 64 bytes in the end, the positions that the bar shows
-- never fall, and none is beyond the file's length in the end.
pub progress_counter-IsRising :
    (turns : List Turn)
    → length (progress_counter new_writer turns).1.file < 2 ^ 64
    → IsRising 0
        (progress_counter new_writer turns).0
        (length (progress_counter new_writer turns).1.file)
progress_counter-IsRising turns small = rising turns new_writer (omega arith) small
