-- ===== src/Tests/Approver.antt =====
-- The console's approver with two clients, and the names of clients.
use hubtain.Common.{ℕ, ◌≡◌, ◌^◌, ◌<◌, ◌↔◌, ◌⊎◌, refl, List, [], ◌∷◌, none, some, arith}
use hubtain.Approval.{ClientId, console_submit, codes}
use hubtain.Approval.Console.{
  ConsoleApprover, ConsoleLine, default, question, typed, asking, returned, set, Turns, Reach, asks,
  reads_line, start, next,
}
use hubtain.Approval.Questions.{asking_alone, waiting_can_ask}
use hubtain.Names.{Mnemonic, fmt, fmt-hash_iff}

abbrev client : ℕ → ClientId
client k = record { pubkey = k ∷ [] }

-- Client 1 asks, and its line comes; then client 0 asks.
abbrev first : ConsoleApprover
first = record {
  lock = some 1;
  lines = question (client 1) ∷ [];
  calls = set default.calls 1 asking;
}

abbrev second : ConsoleApprover
second = record {
  lock = none;
  lines = typed (some (codes "Yes")) ∷ question (client 1) ∷ [];
  calls = set first.calls 1 (returned (console_submit (some (codes "Yes"))));
}

abbrev third : ConsoleApprover
third = record {
  lock = some 0;
  lines = question (client 0) ∷ typed (some (codes "Yes")) ∷ question (client 1) ∷ [];
  calls = set second.calls 0 asking;
}

abbrev reach₁ : Reach client first
reach₁ = next start (asks 1 refl refl refl)

abbrev reach₂ : Reach client second
reach₂ = next reach₁ (reads_line 1 (some (codes "Yes")) refl refl)

abbrev reach₃ : Reach client third
reach₃ = next reach₂ (asks 0 refl refl refl)

asking_alone_example :
    (◌≡◌ {A = ℕ} 0 0) × ((back : List ConsoleLine) × (third.lines ≡ question (client 0) ∷ back))
asking_alone_example = asking_alone client third 0 0 reach₃ refl refl

waiting_can_ask_example :
    (t : ConsoleApprover) × Turns client third t
    × (t.calls 2 ≡ asking)
    × (((third.lock ≡ none) × (t.lines ≡ question (client 2) ∷ third.lines))
        ⊎ ((j : ℕ) × (third.calls j ≡ asking)
            × (t.calls j ≡ returned (console_submit none))
            × (t.lines ≡ question (client 2) ∷ typed none ∷ third.lines)))
waiting_can_ask_example = waiting_can_ask client third 2 none reach₃ refl

-- Words that are the bytes themselves, and a hash that is the first byte's lowest bit.
abbrev plain : Mnemonic
plain = record { to_string = λ bytes. bytes; decode = λ bytes. some bytes }

abbrev constant : List ℕ → ℕ
constant key = 7

bounded : (key : List ℕ) → constant key < 2 ^ 64
bounded key = omega arith

fmt-hash_iff_example :
    (fmt plain constant (client 1) ≡ fmt plain constant (client 2))
    ↔ (constant (1 ∷ []) ≡ constant (2 ∷ []))
fmt-hash_iff_example = fmt-hash_iff plain constant (client 1) (client 2) (λ bytes. refl) bounded
