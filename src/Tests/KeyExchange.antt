-- ===== src/Tests/KeyExchange.antt =====
-- The key exchange between a client and a server that ask an approver.
use hubtain.Common.{ℕ, ◌≡◌, refl, subst, Bool, List, true, false, [], ◌∷◌, Option, some, All}
use mathlib.Core.Option
use hubtain.Stream.{Sock, poll, value, await, resume}
use hubtain.Stream.Link.{fresh, arrival}
use hubtain.Framing.{recv, send}
use hubtain.Approval.{interactive, ClientId, ClientApprover}
use hubtain.EncryptedStream.Server.{approve}
use hubtain.EncryptedStream.Server
use hubtain.EncryptedStream.Safety.{IsApproved, key_exchange-IsApproved}
use hubtain.ServerTui.{
  TermMsg, client_request, input, key, char, enter, new, remove, on_enter, on_down, on_char, handle,
  run,
}
use hubtain.ServerTui.Requests.{asked_by}
use hubtain.ServerTui.Approver.{first_reply, tui_submit}
use hubtain.ServerTui.Consent.{IsFresh, Consents}
use hubtain.Models.{write_to_stream}
use hubtain.Serve.{no_handle}
use hubtain.Serve.Data.{server_data, data_info}
use hubtain.Session.{server_session, task_end, copies}
use hubtain.Cli.Consent.{srv-Consents}
use hubtain.Tests.Client.{info_code, reply_code}
use hubtain.Tests.Commands.{main_env, flags, started, reaches}
use hubtain.Tests.Toy.{toy, server_key}

abbrev says : Bool → ClientApprover
says b id = some b

-- The client's first message is there at once, its second comes later.
abbrev pub first_in : Sock
first_in = record (fresh 100) { inbox = 0 ∷ 1 ∷ 0 ∷ [] }

ends_well :
    (await
      (poll (Server.key_exchange toy (some server_key) interactive (says true)) first_in)
      (arrival (0 ∷ 1 ∷ 2 ∷ []) ∷ [])).0
    ≡ value (0, 7 ∷ 8 ∷ [])
unfolding Server.key_exchange poll recv send await resume approve
ends_well = refl

key_exchange-IsApproved_example : IsApproved interactive (says true) (7 ∷ 8 ∷ [])
key_exchange-IsApproved_example =
    key_exchange-IsApproved toy (some server_key) interactive (says true) first_in
      (arrival (0 ∷ 1 ∷ 2 ∷ []) ∷ []) 0 (7 ∷ 8 ∷ []) ends_well

-- The user selects the client that asks, and presses Enter.
abbrev accepts : ClientId → List TermMsg
accepts id = client_request id 5 ∷ input (key (char b'j') false) ∷ input (key enter false) ∷ []

abbrev handled : ClientId → Option (List TermMsg)
handled id = some (accepts id)

asks_alone : IsFresh 5 handled
asks_alone id msgs e =
    let is : accepts id ≡ msgs = cc in
    subst (λ (ms : List TermMsg). All (λ r. r.1 ≡ 5 → r.0 ≡ id) (asked_by ms)) is ((λ p. refl), tt)

-- The client's messages come to a server from the command line.
user_accepts :
    task_end
      (await
        (poll
          (server_session info_code toy 9 9 5000
            (server_data started)
            (some server_key)
            interactive
            (tui_submit (77 ∷ []) (65 ∷ []) 5 handled))
          first_in)
        (arrival (0 ∷ 1 ∷ 2 ∷ []) ∷ [])).0
    ≡ copies (some (0, 7 ∷ 8 ∷ []))
unfolding server_session write_to_stream data_info server_data Server.key_exchange poll recv send
    await resume approve tui_submit first_reply run handle on_enter on_char on_down remove new
    Option.bind
user_accepts = refl

srv-Consents_example :
    ◌≡◌ {A = Bool} true true
    × ((t : ℕ) × (key : List ℕ) × (◌≡◌ {A = Option (ℕ × List ℕ)}
          (some (0, 7 ∷ 8 ∷ []))
          (some (t, key)))
        × Consents (77 ∷ []) (65 ∷ []) 5 handled asks_alone (record { pubkey = key }))
srv-Consents_example =
    srv-Consents info_code reply_code toy 5 handled asks_alone main_env (some (65 ∷ [])) flags
      started (record { tui = true; handle = no_handle }) (some server_key) 9 9 first_in
      (arrival (0 ∷ 1 ∷ 2 ∷ []) ∷ []) (some (0, 7 ∷ 8 ∷ [])) reaches refl refl user_accepts
