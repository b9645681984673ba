-- ===== src/Tests/Screen.antt =====
-- What the server's interface shows, and the terminal that it leaves.
use hubtain.Common.{
  ℕ, ◌≡◌, ◌≢◌, ◌↔◌, ◌⊎◌, inl, inr, refl, Occurs, Bool, true, false, List, [], ◌∷◌, Option, none,
  some,
}
use mathlib.Core.Option
use hubtain.Approval.{ClientId, codes}
use hubtain.ServerTui.{
  TermMsg, client_request, input, key, enter, char, new, reply, info_downloading, handle, on_enter,
  on_char, on_down, remove, client_line, chop_id_at,
}
use hubtain.ServerTui.Frame.{Seen, Frame, seen, draw, client_items}
use hubtain.ServerTui.Screen.{Highlights, seen-Highlights}
use hubtain.ServerTui.Threads.{thread_ok, thread_panics, thread_runs}
use hubtain.ServerTui.RenderThread.{TerminalCalls, Came, render_loop, render_thread}
use hubtain.ServerTui.RenderThread.Panics.{BreaksIn, render_thread-panics_iff}
use hubtain.ServerTui.Setup.{
  no_logger, started, serve_setup, serve_terminal, reaches_cleanup, leaves_early,
}
use hubtain.ServerTui.Restored.{IsRestored, can_leave, plain, serve_terminal-IsRestored_iff}

abbrev client : ClientId
client = record { pubkey = 1 ∷ [] }

abbrev shows : ClientId → List ℕ
shows id = id.pubkey

-- A client asks, is selected, and is let in, on a screen that is 40 columns wide.
abbrev events : List (Option TermMsg × ℕ × Bool)
events =
    (some (client_request client 11), 40, false)
    ∷ (some (input (key (char b'j') false)), 40, false)
    ∷ (some (input (key enter false)), 40, false)
    ∷ []

abbrev selected : Frame
selected = record {
  title = codes " Server name:  - Serving:  ";
  logs = [];
  width = 40;
  items = (1 ∷ []) ∷ [];
  highlighted = some 0;
}

abbrev entered : Seen
entered = record {
  screen = some selected;
  msg = input (key enter false);
  effects = info_downloading client ∷ reply 11 true ∷ [];
}

has_entered : Occurs entered (seen true shows (new [] []) none events)
unfolding seen new handle on_enter on_char on_down remove draw client_items client_line chop_id_at
    Option.bind
has_entered = inr (inr (inl refl))

seen-Highlights_example : Highlights true shows ((client, 11) ∷ []) (some selected) 11
seen-Highlights_example =
    seen-Highlights true shows [] [] events entered 11 true has_entered (inr (inl refl))

serve_terminal-IsRestored_iff_example :
    IsRestored
      (serve_terminal (can_leave true true) true (leaves_early thread_runs) (plain no_logger false))
    ↔ (((serve_setup (can_leave true true) true true (plain no_logger false)).0 ≢ started)
        ⊎ (leaves_early thread_runs ≡ reaches_cleanup thread_ok thread_ok))
serve_terminal-IsRestored_iff_example =
    serve_terminal-IsRestored_iff true true true no_logger false (leaves_early thread_runs)

-- The terminal is made narrow while two clients wait.
abbrev narrowing : List Came
narrowing =
    record { msg = some (client_request client 11); width = some 40; shutdown = false }
    ∷ record { msg = some (client_request client 12); width = some 4; shutdown = false }
    ∷ []

abbrev terminal : TerminalCalls
terminal = record { new = true; autoresize = true; hide_cursor = true; clear = true }

render_thread-panics_iff_example :
    (render_thread true shows terminal (new [] []) narrowing ≡ thread_panics)
    ↔ (◌≡◌ {A = Bool} true true × BreaksIn true shows (new [] []) narrowing)
render_thread-panics_iff_example =
    render_thread-panics_iff true shows terminal (new [] []) narrowing

panics : render_thread true shows terminal (new [] []) narrowing ≡ thread_panics
unfolding render_thread render_loop new handle draw client_items client_line chop_id_at
panics = refl
