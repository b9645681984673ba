-- ===== src/Tests/Console.antt =====
-- The answer at the console, for a client that copies the file.
use hubtain.Common.{
  ℕ, ◌+◌, ◌≡◌, refl, sym, ap, ◌∙◌, Bool, true, false, Bool-cases, inl, inr, List, [], ◌∷◌, Option,
  none, some, if◌then◌else◌,
}
use mathlib.Core.Option
use hubtain.Stream.{poll, await, resume}
use hubtain.Stream.Link.{arrival}
use hubtain.Framing.{recv, send}
use hubtain.Approval.{ClientId, ClientApprover, codes, interactive, is_whitespace, console_submit}
use hubtain.Approval.Answers.{console_submit_iff}
use hubtain.Approval.Console.{
  ConsoleApprover, default, question, typed, asking, returned, set, Reach, asks, reads_line, start,
  next,
}
use hubtain.EncryptedStream.Server
use hubtain.EncryptedStream.Server.{approve}
use hubtain.Models.{write_to_stream}
use hubtain.Serve.Data.{server_data, data_info}
use hubtain.Session.{server_session, task_end, copies}
use hubtain.Cli.Console.{TypedYes, srv-TypedYes}
use hubtain.Tests.Toy.{toy, server_key}
use hubtain.Tests.Client.{info_code, reply_code}
use hubtain.Tests.Commands.{main_env}
use hubtain.Tests.Encrypted.{flags, served, begun, reaches}
use hubtain.Tests.KeyExchange.{first_in}
use hubtain.Tests.Transfer.{same, same→eq}

abbrev client : ℕ → ClientId
client k = record { pubkey = 7 ∷ (8 + k) ∷ [] }

abbrev input : List ℕ
input = codes "Yes\n"

-- The user has said yes to the one client that asked.
abbrev console : ConsoleApprover
console = record {
  lock = none;
  lines = typed (some input) ∷ question (client 0) ∷ [];
  calls = set (set default.calls 0 asking) 0 (returned (console_submit (some input)));
}

reach : Reach client console
reach = next (next start (asks 0 refl refl refl)) (reads_line 0 (some input) refl refl)

says_yes : console_submit (some input) ≡ some true
unfolding is_whitespace
says_yes = (console_submit_iff input).0.1 (record {
  front = [];
  word = codes "Yes";
  back = 10 ∷ [];
  split = refl;
  white_front = tt;
  white_back = (refl, tt);
  yes = inr (inr refl, (inl refl, (inl refl, tt)));
})

abbrev approver : ClientApprover
approver id = if same id.pubkey (7 ∷ 8 ∷ []) then some true else none

answers :
    (id : ClientId) (b : Bool)
    → approver id ≡ some b
    → (i : ℕ) × (client i ≡ id) × (console.calls i ≡ returned (some b))
answers id b e = elim (Bool-cases (same id.pubkey (7 ∷ 8 ∷ []))) [
  | inl is ↦
      let yes_b : some true ≡ some b = rw is at e in
      let key : id.pubkey ≡ 7 ∷ 8 ∷ [] = same→eq id.pubkey (7 ∷ 8 ∷ []) is in
      (0, λ j. record { pubkey = sym key j }, ap returned (says_yes ∙ yes_b))
  | inr off ↦ absurd (let p : none ≡ some b = rw off at e in cc)
]

copied :
    task_end
      (await
        (poll
          (server_session info_code toy 9 9 5000
            (server_data served)
            (some server_key)
            interactive
            approver)
          first_in)
        (arrival (0 ∷ 1 ∷ 2 ∷ []) ∷ [])).0
    ≡ copies (some (0, 7 ∷ 8 ∷ []))
unfolding server_session write_to_stream data_info server_data Server.key_exchange poll recv send
    await resume approve Option.bind
copied = refl

srv-TypedYes_example :
    ◌≡◌ {A = Bool} false false
    × ((t : ℕ) × (key : List ℕ) × (◌≡◌ {A = Option (ℕ × List ℕ)}
          (some (0, 7 ∷ 8 ∷ []))
          (some (t, key)))
        × TypedYes console.lines (record { pubkey = key }))
srv-TypedYes_example =
    srv-TypedYes info_code reply_code toy client console reach main_env (some (65 ∷ [])) flags
      served begun approver (some server_key) 9 9 first_in (arrival (0 ∷ 1 ∷ 2 ∷ []) ∷ [])
      (some (0, 7 ∷ 8 ∷ [])) reaches refl refl answers copied
