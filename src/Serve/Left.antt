-- ===== src/Serve/Left.antt =====
-- server/mod.rs (`FileSrv::serve`, every way out of it) with server/ngrok.rs and igd/mod.rs: what is left of the
-- tunnel's process, or of the gateway's port, when `serve` has ended.
pub mod Steps
pub mod Ends
use hubtain.Common.{ℕ, ◌≡◌, Bool, true, false, not, ◌&&◌, if◌then◌else◌, ◌⊎◌, Option, none, some}
use mathlib.Core.Option
use hubtain.Server.{FileSrv, HolePuncher, no_hole, igd, ngrok, SocketAddr, v4_addr, v6_addr}
use hubtain.ServerTui.Threads.{ThreadEnd, thread_ok}
use hubtain.Serve.{
  Handle, no_handle, ngrok_handle, igd_handle, ServeEnv, get_external_addr, begin, is_interactive,
}
use hubtain.Serve.Tunnel.{get_tunnel}
use hubtain.Serve.Release.{ReleaseEnv, cleanup}

abbrev pub is_mapped : Option ℕ → Bool
is_mapped none = false
is_mapped (some port) = true

-- Whether the arms of the `match` on the hole puncher have made a process or a mapped port, whatever they
-- return.
unfoldable pub punch_makes : ServeEnv → HolePuncher → SocketAddr → Bool
punch_makes env no_hole addr = false
punch_makes env igd (v4_addr ip port) = is_mapped (get_external_addr env port)
punch_makes env igd (v6_addr port) = false
punch_makes env ngrok (v4_addr ip port) = (get_tunnel (env.ngrok_run port)).1
punch_makes env ngrok (v6_addr port) = false

-- The same of `serve` up to the loop: an interface that does not start is an error before those arms.
unfoldable pub begin_makes : ServeEnv → FileSrv → Bool
unfolding punch_makes
begin_makes env self =
    let wants_tui = is_interactive self.client_approval_strategy && self.stay_alive in
    if wants_tui && not (env.is_tty && env.tui_starts)
    then false
    else punch_makes env self.holepuncher self.tcp_sock

-- How `serve` goes on from its loop: an error leaves it there, or it comes to the cleanup, which joins the
-- interface's threads if there is an interface.
pub data Way : Type 0 where
  leaves_early : Way
  reaches_cleanup : Option (ThreadEnd × ThreadEnd) → Way

abbrev pub is_held : Handle → Bool
is_held no_handle = false
is_held (ngrok_handle url) = true
is_held (igd_handle port) = true

-- A handle that goes out of scope ends nothing; the cleanup does, or stops before.
unfoldable pub loop_leaves : ReleaseEnv → Way → Handle → Bool
loop_leaves sys leaves_early held = is_held held
loop_leaves sys (reaches_cleanup threads) held =
    if (cleanup sys threads held true).freed then false else is_held held

-- Whether there was a process or a port that `serve` has not ended.
unfoldable pub serve_keeps : ServeEnv → ReleaseEnv → FileSrv → Way → Bool
unfolding begin_makes loop_leaves
serve_keeps env sys self way = elim (begin env self) [
  | none ↦ begin_makes env self
  | some st ↦ loop_leaves sys way st.handle
]

-- Whether what is made stays until somebody ends it: a process may come to its end by itself.
abbrev pub outlives : ServeEnv → HolePuncher → SocketAddr → Bool
outlives env ngrok (v4_addr ip port) = not (env.ngrok_run port).exits
outlives env ngrok (v6_addr port) = true
outlives env igd addr = true
outlives env no_hole addr = true

-- Whether the process or the port is still there when `serve` has ended.
unfoldable pub serve_leaves : ServeEnv → ReleaseEnv → FileSrv → Way → Bool
unfolding serve_keeps
serve_leaves env sys self way =
    outlives env self.holepuncher self.tcp_sock && serve_keeps env sys self way

-- Both threads have ended well, where there are two.
abbrev pub Joins : Option (ThreadEnd × ThreadEnd) → Type 0
Joins threads = (threads ≡ none) ⊎ (threads ≡ some (thread_ok, thread_ok))

abbrev pub Cleans : Way → Type 0
Cleans leaves_early = ⊥
Cleans (reaches_cleanup threads) = Joins threads
