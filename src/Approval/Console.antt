-- ===== src/Approval/Console.antt =====
-- server/client_approver.rs (`ConsoleApprover`): the calls of `submit` on one approver, whose mutex
-- serializes them.
use hubtain.Common.{ℕ, ◌≡◌, ◌==◌, if◌then◌else◌, List, [], ◌∷◌, Option, none, some, Bool}
use hubtain.Approval.{ClientId, console_submit}

-- A call of `submit`: it waits for the lock, has printed its question and reads a line, or has returned
-- (`none` stands for an error).
pub data Submit : Type 0 where
  waiting asking : Submit
  returned : Option Bool → Submit

-- What stands on the console: a question, or what `read_line` gave.
pub data ConsoleLine : Type 0 where
  question : ClientId → ConsoleLine
  typed : Option (List ℕ) → ConsoleLine

-- Who holds the lock, the lines of the console with the newest first, and the calls by their numbers.
pub record ConsoleApprover : Type 0 where
  pub lock : Option ℕ
  pub lines : List ConsoleLine
  pub calls : ℕ → Submit

-- `ConsoleApprover::default`, with calls that have yet to begin.
abbrev pub default : ConsoleApprover
default = record { lock = none; lines = []; calls = λ i. waiting }

abbrev pub set : (ℕ → Submit) → ℕ → Submit → ℕ → Submit
set calls i call j = if j == i then call else calls j

-- One turn of a call, of which the n-th is for `client n`: with the lock it prints its question; with a
-- line it returns, and the lock is dropped.
pub data Step (client : ℕ → ClientId) (s t : ConsoleApprover) : Type 0 where
  asks :
      (i : ℕ)
      → s.calls i ≡ waiting
      → s.lock ≡ none
      → t ≡ record {
        lock = some i;
        lines = question (client i) ∷ s.lines;
        calls = set s.calls i asking;
      }
      → Step client s t
  reads_line :
      (i : ℕ) (input : Option (List ℕ))
      → s.calls i ≡ asking
      → t ≡ record {
        lock = none;
        lines = typed input ∷ s.lines;
        calls = set s.calls i (returned (console_submit input));
      }
      → Step client s t

pub data Reach (client : ℕ → ClientId) : ConsoleApprover → Type 0 where
  start : Reach client default
  next : {s t : ConsoleApprover} → Reach client s → Step client s t → Reach client t

-- Further turns from a state.
pub data Turns (client : ℕ → ClientId) (s : ConsoleApprover) : ConsoleApprover → Type 0 where
  here : Turns client s s
  turn : {t u : ConsoleApprover} → Turns client s t → Step client t u → Turns client s u
