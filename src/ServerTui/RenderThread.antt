-- ===== src/ServerTui/RenderThread.antt =====
-- server/tui.rs (`ServerTui::render`): how the thread ends that draws.
pub mod Panics
mod Wide
use hubtain.Common.{ℕ, Bool, ◌&&◌, if◌then◌else◌, List, [], ◌∷◌, Option, none, some}
use hubtain.Approval.{ClientId}
use hubtain.ServerTui.{ServerTui, TermMsg, handle, Ending, returned, waiting, channel_died}
use hubtain.ServerTui.Frame.{draw}
use hubtain.ServerTui.Threads.{ThreadEnd, thread_ok, thread_err, thread_panics, thread_runs}

-- Whether the calls on the terminal before the loop, and the one behind it, succeed.
pub record TerminalCalls : Type 0 where
  pub new : Bool
  pub autoresize : Bool
  pub hide_cursor : Bool
  pub clear : Bool

-- One turn of the loop: the message, `none` for the end of the channel; the width at which it is drawn, `none`
-- for a drawing that fails; and the load of `SHUTDOWN_FLAG` behind it.
pub record Came : Type 0 where
  pub msg : Option TermMsg
  pub width : Option ℕ
  pub shutdown : Bool

module _ (overflow_checks : Bool) (to_string : ClientId → List ℕ) (sys : TerminalCalls) where
  -- `terminal.clear()?` and the `Ok` behind it.
  abbrev cleared : ThreadEnd
  cleared = if sys.clear then thread_ok else thread_err

  unfoldable pub render_loop : ServerTui → List Came → ThreadEnd
  render_loop self [] = thread_runs
  render_loop self (c ∷ cs) = elim c.msg [
    | none ↦ thread_panics
    | some msg ↦
        let (next, effects, quits) = handle self msg in
        let rest = render_loop next cs in
        if quits then cleared else elim c.width [
          | none ↦ thread_err
          | some width ↦ elim (draw overflow_checks to_string width next) [
            | none ↦ thread_panics
            | some frame ↦ if c.shutdown then cleared else rest
          ]
        ]
  ]

  unfoldable pub render_thread : ServerTui → List Came → ThreadEnd
  unfolding render_loop
  render_thread self cs =
      if sys.new && sys.autoresize && sys.hide_cursor then render_loop self cs else thread_err

-- How the thread ends where every drawing, and the call behind the loop, succeeds.
abbrev pub render_end : Ending → ThreadEnd
render_end returned = thread_ok
render_end waiting = thread_runs
render_end channel_died = thread_panics
