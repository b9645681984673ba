-- ===== src/Tests/Tunnel.antt =====
-- A server that tunnels through `ngrok`, and quits in order.
use hubtain.Common.{
  ◌&&◌, ℕ, zero, suc, ◌≡◌, ◌⊎◌, ◌↔◌, refl, true, false, List, [], ◌∷◌, Option, none, some, inr,
}
use hubtain.Server.{FileSrv, ngrok}
use hubtain.ServerTui.Threads.{thread_ok}
use hubtain.Serve.{ServeEnv}
use hubtain.Serve.Tunnel.{TunnelStartedMsg, NgrokRun, Announces}
use hubtain.Serve.Release.{ReleaseEnv}
use hubtain.Serve.Left.{Way, reaches_cleanup, Cleans, serve_leaves}
use hubtain.Serve.Left.Ends.{serve_leaves-false_iff}
use hubtain.Tests.Server.{address, srv}

abbrev tunnelled : FileSrv
tunnelled = record srv { holepuncher = ngrok }

-- A line that holds the message, by its first byte.
abbrev message : List ℕ → Option TunnelStartedMsg
message [] = none
message (zero ∷ line) = none
message (suc c ∷ line) = some (record { addr = []; url = line; msg = []; lvl = [] })

abbrev run : NgrokRun
run = record {
  spawns = true;
  has_stdout = true;
  lines = some (0 ∷ []) ∷ some (1 ∷ 7 ∷ []) ∷ none ∷ [];
  from_str = message;
  exits = false;
}

abbrev env : ServeEnv
env = record {
  is_tty = true;
  tui_starts = true;
  ngrok_run = λ port. run;
  ifaces = none;
  gateway = none;
  set_broadcast = true;
  local_addr = true;
}

abbrev sys : ReleaseEnv
sys = record { kill = true; wait = true; remove_port = false }

abbrev way : Way
way = reaches_cleanup (some (thread_ok, thread_ok))

serve_leaves-false_iff_example : (serve_leaves env sys tunnelled way ≡ false) ↔ (
    (run.spawns ≡ false)
    ⊎ (run.exits ≡ true)
    ⊎ ((run.has_stdout ≡ true)
        × Announces message run.lines
        × ((env.set_broadcast && env.local_addr) ≡ true)
        × Cleans way
        × (sys.kill ≡ true)))
serve_leaves-false_iff_example =
    serve_leaves-false_iff env tunnelled (address 0 0) 5000 refl (inr refl) refl sys way

ends : serve_leaves env sys tunnelled way ≡ false
ends = (serve_leaves-false_iff env tunnelled (address 0 0) 5000 refl (inr refl) refl sys way).1 (
    inr (
      inr (
        refl,
        (
          some (0 ∷ []) ∷ [],
          1 ∷ 7 ∷ [],
          record { addr = []; url = 7 ∷ []; msg = []; lvl = [] },
          none ∷ [],
          refl,
          refl,
          ((0 ∷ [], refl, refl), tt),
        ),
        refl,
        inr refl,
        refl,
      )))
