-- ===== src/Serve/Release.antt =====
-- server/mod.rs: the end of `serve`, with `NgrokHandle::shutdown` (server/ngrok.rs) and `IGDHandle::free`
-- (igd/mod.rs).
pub mod Refines
pub mod Quit
use hubtain.Common.{Bool, true, false, if◌then◌else◌, Option, none, some}
use hubtain.ServerTui.Threads.{ThreadEnd, JoinEnd, joined, join_panics, join_waits, tui_join}
use hubtain.Serve.{Handle, no_handle, ngrok_handle, igd_handle}

-- What the system answers when a handle is released: whether the process could be killed, and waited
-- for, and whether the gateway removed the port.
pub record ReleaseEnv : Type 0 where
  pub kill : Bool
  pub wait : Bool
  pub remove_port : Bool

-- `serve` returned `Ok` or an error, panicked, or still waits for a thread.
pub data CleanEnd : Type 0 where
  clean_success clean_error clean_panics clean_waits : CleanEnd

-- How the cleanup ended, whether the tunnel's process is dead and the gateway's port removed, and
-- what `SHUTDOWN_FLAG` is then.
pub record Cleaned : Type 0 where
  pub ending : CleanEnd
  pub freed : Bool
  pub shutdown_flag : Bool

-- `NgrokHandle::shutdown`
unfoldable pub ngrok_shutdown : ReleaseEnv → Bool × Bool
ngrok_shutdown env = if env.kill then (env.wait, true) else (false, false)

-- `IGDHandle::free`
unfoldable pub igd_free : ReleaseEnv → Bool × Bool
igd_free env = (env.remove_port, env.remove_port)

-- The release of the handle, whether it went well, and whether nothing of it is left.
unfoldable pub free_handle : ReleaseEnv → Handle → Bool × Bool
unfolding ngrok_shutdown igd_free
free_handle env no_handle = (true, true)
free_handle env (ngrok_handle url) = ngrok_shutdown env
free_handle env (igd_handle port) = igd_free env

unfoldable pub free_all : ReleaseEnv → Handle → Bool → Cleaned
unfolding free_handle
free_all env held flag =
    let (well, freed) = free_handle env held in
    if well
    then record { ending = clean_success; freed = freed; shutdown_flag = false }
    else record { ending = clean_error; freed = freed; shutdown_flag = flag }

-- What follows the join of the interface, which has set the flag.
unfoldable pub after_join : ReleaseEnv → Handle → JoinEnd → Cleaned
unfolding free_all
after_join env held joined = free_all env held true
after_join env held join_panics = record {
  ending = clean_panics;
  freed = false;
  shutdown_flag = true;
}
after_join env held join_waits = record {
  ending = clean_waits;
  freed = false;
  shutdown_flag = true;
}

-- The end of `serve`, where the interface's two threads end so once the flag is set; `none` is a
-- server without an interface.
unfoldable pub cleanup : ReleaseEnv → Option (ThreadEnd × ThreadEnd) → Handle → Bool → Cleaned
unfolding after_join free_all
cleanup env none held flag = free_all env held flag
cleanup env (some (render, events)) held flag = after_join env held (tui_join render events)
