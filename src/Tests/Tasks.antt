-- ===== src/Tests/Tasks.antt =====
-- A run of the server that serves one client.
use hubtain.Common.{
  ◌+◌, ◌≤◌, ◌≡◌, refl, Bool, true, false, List, [], ◌∷◌, Option, none, some, ◌⊎◌, inr,
}
use hubtain.Serve.{
  success, failure, accepting, transferring, data_ended, main_checking, listening, joining,
  cleaning, State, init, data_go, accept_once, transfer_ends, main_stop, main_go, ping_timeout,
  join_ok, Reach, start, next, here, turn, Step, ngrok_handle, igd_handle,
}
use hubtain.Serve.OneClient.{accepted-le-one}
use hubtain.Serve.Shutdown.{left, task_turns, CanMove, Waits, shutdown_ends}
use hubtain.Serve.Release.{ReleaseEnv, clean_panics, igd_free, free_handle, free_all, cleanup}
use hubtain.Serve.Release.Refines.{after_cleanup, outcome_of, cleanup-Step}
use hubtain.ServerTui.RenderThread.{render_end}
use hubtain.Serve.Release.Quit.{event_forwarder-cleanup}
use hubtain.ServerTui.{
  TermMsg, input, Event, key, char, other_event, new, on_char, handle, render, returned,
}
use hubtain.ServerTui.Threads.{Turn, event_read, event_forwarder}

abbrev s₁ : State
s₁ = record init { data_task = accepting }

abbrev s₂ : State
s₂ = record s₁ { main_task = listening }

abbrev s₃ : State
s₃ = record s₂ { data_task = transferring; accepted = 1; shutdown_flag = true }

abbrev s₄ : State
s₄ = record s₃ { data_task = data_ended success }

abbrev s₅ : State
s₅ = record s₄ { main_task = main_checking }

abbrev s₆ : State
s₆ = record s₅ { main_task = joining }

abbrev s₇ : State
s₇ = record s₆ { main_task = cleaning }

serves : Reach false false s₄
serves =
    next
      (next (next (next start (data_go refl refl refl)) (main_go refl refl refl))
        (accept_once false refl refl refl))
      (transfer_ends success refl refl refl)

accepted-le-one_example : s₄.accepted ≤ 1
accepted-le-one_example = accepted-le-one serves

shutdown_ends_example :
    (1 + left s₅ ≤ left s₄) × (left s₄ ≤ 6) × (CanMove false false s₅ ⊎ Waits s₅ ⊎ (left s₅ ≡ 0))
unfolding task_turns
shutdown_ends_example = shutdown_ends serves (turn here (ping_timeout refl refl)) refl

-- The gateway cannot remove the port.
abbrev unreachable : ReleaseEnv
unreachable = record { kill = true; wait = true; remove_port = false }

cleans : Reach false false s₇
cleans =
    next (next (next serves (ping_timeout refl refl)) (main_stop refl refl refl))
      (join_ok refl refl refl)

fails : outcome_of (cleanup unreachable none (igd_handle 5000) true).ending ≡ some failure
unfolding cleanup free_all free_handle igd_free
fails = refl

cleanup-Step_example :
    Step false false s₇ (after_cleanup s₇ failure (cleanup unreachable none (igd_handle 5000) true))
cleanup-Step_example = cleanup-Step unreachable none (igd_handle 5000) failure cleans refl fails

-- The user quits, and presses one key more.
abbrev quit : List (Option TermMsg × Bool)
quit = (some (input (key (char b'q') false)), false) ∷ []

abbrev turn_with : Event → Bool → Turn
turn_with e receiver = record { shutdown = false; polled = event_read e; receiver = receiver }

quits : (render (new [] []) quit).2 ≡ returned
unfolding render handle on_char new
quits = refl

event_forwarder-cleanup_example :
    let (sent, ends) =
      event_forwarder (turn_with (key (char b'q') false) true ∷ turn_with other_event false ∷ []) in
    (sent ≡ input (key (char b'q') false) ∷ [])
    × (cleanup unreachable
          (some (render_end (render (new [] []) quit).2, ends))
          (ngrok_handle [])
          true
        ≡ record { ending = clean_panics; freed = false; shutdown_flag = true })
event_forwarder-cleanup_example =
    event_forwarder-cleanup unreachable (ngrok_handle []) true (new [] []) quit
      (turn_with (key (char b'q') false) true ∷ []) (turn_with other_event false) [] other_event
      quits ((refl, inr (key (char b'q') false, refl, refl)), tt) refl refl
