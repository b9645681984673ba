-- ===== src/Approval.antt =====
-- models.rs (`ClientId`), server/mod.rs (`ClientApprovalStrategy`), server/client_approver.rs: who may
-- download. The console's answer is a line of characters, by their code points.
pub mod Answers
pub mod Console
pub mod Questions
use Prim.Native.Char.{code}
use Prim.Native.String.{String}
use hubtain.Common.{
  ℕ, ◌+◌, ◌==◌, leb, if◌then◌else◌, Bool, true, false, ◌&&◌, ◌||◌, List, [], ◌∷◌, Option, none,
  some, reverse,
}

pub record ClientId : Type 0 where
  pub pubkey : List ℕ

pub data ClientApprovalStrategy : Type 0 where
  interactive approve_all : ClientApprovalStrategy

-- `ClientApprover::submit`: `none` stands for an error.
abbrev pub ClientApprover : Type 0
ClientApprover = ClientId → Option Bool

abbrev pub codes : String → List ℕ
codes String.[] = []
codes (String.◌∷◌ c s) = code c ∷ codes s

-- `char::is_whitespace`: the characters with the Unicode property White_Space, by their code points.
unfoldable pub is_whitespace : ℕ → Bool
is_whitespace c =
    c == 32
    || ((leb 9 c && leb c 13)
        || (c == 133
            || (c == 160
                || (c == 5760
                    || ((leb 8192 c && leb c 8202)
                        || ((leb 8232 c && leb c 8233)
                            || (c == 8239 || (c == 8287 || c == 12288))))))))

unfoldable pub trim_start : List ℕ → List ℕ
unfolding is_whitespace
trim_start [] = []
trim_start (c ∷ cs) = let rest = trim_start cs in if is_whitespace c then rest else c ∷ cs

abbrev pub trim_end : List ℕ → List ℕ
trim_end cs = reverse (trim_start (reverse cs))

-- `str::trim`
abbrev pub trim : List ℕ → List ℕ
trim cs = trim_end (trim_start cs)

abbrev pub to_ascii_lowercase : ℕ → ℕ
to_ascii_lowercase c = if leb b'A' c && leb c b'Z' then c + 32 else c

pub eq_ignore_ascii_case : List ℕ → List ℕ → Bool
eq_ignore_ascii_case [] [] = true
eq_ignore_ascii_case (a ∷ xs) (b ∷ ys) =
    to_ascii_lowercase a == to_ascii_lowercase b && eq_ignore_ascii_case xs ys
eq_ignore_ascii_case _ _ = false

-- `ConsoleApprover::submit`, on what `read_line` gave: `none` stands for its error.
unfoldable pub console_submit : Option (List ℕ) → Option Bool
console_submit none = none
console_submit (some input) =
    let trimmed = trim input in
    some (
      if eq_ignore_ascii_case trimmed (codes "y") || eq_ignore_ascii_case trimmed (codes "yes")
      then true
      else false)
