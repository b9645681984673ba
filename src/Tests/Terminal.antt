-- ===== src/Tests/Terminal.antt =====
-- The terminal interface of the server on a few messages.
use hubtain.Common.{ℕ, ◌≡◌, refl, false, List, [], ◌∷◌, ◌++◌, some}
use mathlib.Core.List.{Perm}
use hubtain.Approval.{ClientId}
use hubtain.ServerTui.{
  ServerTui, TermMsg, log, client_request, input, key, enter, char, new, handle, run,
}
use hubtain.ServerTui.Logs.{run-logs}
use hubtain.ServerTui.Replies.{answered, open_requests, run-answered}
use hubtain.ServerTui.Keys.{enter_twice_at_end}

abbrev client : ℕ → ClientId
client k = record { pubkey = k ∷ [] }

-- Two clients ask, and the second is accepted.
abbrev msgs : List TermMsg
msgs =
    client_request (client 1) 11
    ∷ log (65 ∷ [])
    ∷ client_request (client 2) 12
    ∷ input (key (char b'j') false)
    ∷ input (key (char b'j') false)
    ∷ input (key enter false)
    ∷ []

abbrev two : ServerTui
two = record {
  logs = [];
  clients = (client 1, 11) ∷ (client 2, 12) ∷ [];
  selected = some 1;
  name = [];
  file_name = [];
}

run-answered_example :
    let (last, effects) = run (new [] []) msgs in
    Perm (11 ∷ 12 ∷ []) (answered effects ++ open_requests last)
run-answered_example = run-answered [] [] msgs

run-logs_example : (run (new [] []) msgs).0.logs ≡ (65 ∷ []) ∷ []
run-logs_example = run-logs [] [] msgs

enter_twice_at_end_example :
    let (next, effects, quits) = handle two (input (key enter false)) in
    (next.clients ≡ (client 1, 11) ∷ [])
    × (handle next (input (key enter false)) ≡ (next, [], false))
enter_twice_at_end_example =
    enter_twice_at_end two ((client 1, 11) ∷ []) (client 2, 12) false refl refl
