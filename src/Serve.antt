-- ===== src/Serve.antt =====
-- server/mod.rs: `FileSrv::serve` and `FileSrv::data_srv`, and the handles that they hold
-- (server/ngrok.rs, igd/mod.rs). The two tasks and the terminal's threads share `SHUTDOWN_FLAG`; their
-- turns interleave in any order.
pub mod OneClient
pub mod Cleanup
pub mod Shutdown
pub mod Data
pub mod Release
pub mod Tunnel
pub mod Left
use hubtain.Common.{
  ◌>>=◌, ℕ, suc, ◌≡◌, if◌then◌else◌, Bool, true, false, ◌&&◌, List, Option, none, some,
}
use hubtain.Approval.{ClientApprovalStrategy, interactive, approve_all}
use hubtain.Addresses.{Ipv4Addr, IfAddr, find_local_ip}
use hubtain.Server.{FileSrv, HolePuncher, no_hole, igd, ngrok, SocketAddr, v4_addr, v6_addr}
use hubtain.Serve.Tunnel.{NgrokRun, get_tunnel}
use mathlib.Core.Option

-- `NgrokHandle` and `IGDHandle`: the tunnel's address, and the port that the gateway maps.
pub data Handle : Type 0 where
  no_handle : Handle
  ngrok_handle : (url : List ℕ) → Handle
  igd_handle : (port : ℕ) → Handle

-- What `serve` finds before its loop: the terminal, `ngrok` on a port, the interfaces, the gateway and
-- its address for a local one, and whether the two calls on the UDP socket succeed.
pub record ServeEnv : Type 0 where
  pub is_tty : Bool
  pub tui_starts : Bool
  pub ngrok_run : ℕ → NgrokRun
  pub ifaces : Option (List IfAddr)
  pub gateway : Option ((Ipv4Addr × ℕ) → Option ℕ)
  pub set_broadcast : Bool
  pub local_addr : Bool

-- `get_external_addr`
unfoldable pub get_external_addr : ServeEnv → ℕ → Option ℕ
get_external_addr env local_port = do
  local_addr ← find_local_ip env.ifaces
  gw ← env.gateway
  gw (local_addr, local_port)

-- The arms of the `match` on the hole puncher.
unfoldable pub punch : ServeEnv → HolePuncher → SocketAddr → Option Handle
unfolding get_external_addr get_tunnel
punch env no_hole addr = some no_handle
punch env igd (v4_addr ip port) = Option.map igd_handle (get_external_addr env port)
punch env igd (v6_addr port) = none
punch env ngrok (v4_addr ip port) = Option.map ngrok_handle (get_tunnel (env.ngrok_run port)).0
punch env ngrok (v6_addr port) = none

abbrev pub is_interactive : ClientApprovalStrategy → Bool
is_interactive interactive = true
is_interactive approve_all = false

-- What `serve` holds when its loop begins: whether the terminal interface runs, and the handle.
pub record Started : Type 0 where
  pub tui : Bool
  pub handle : Handle

-- `serve` up to the loop; `none` is an error.
unfoldable pub begin : ServeEnv → FileSrv → Option Started
unfolding punch
begin env self = do
  let wants_tui = is_interactive self.client_approval_strategy && self.stay_alive
  tui ← if wants_tui then (if env.is_tty && env.tui_starts then some true else none) else some false
  handle ← punch env self.holepuncher self.tcp_sock
  if env.set_broadcast && env.local_addr then some (record { tui = tui; handle = handle }) else none

pub data Outcome : Type 0 where
  success failure : Outcome

-- `data_srv`: at the test of the flag, in `accept`, waiting for its only transfer, or ended.
pub data DataTask : Type 0 where
  checking accepting transferring : DataTask
  data_ended : Outcome → DataTask

-- `serve`: at the test of the flag, in `recv_from`, waiting for `data_srv`, at the cleanup, or ended.
pub data MainTask : Type 0 where
  main_checking listening joining cleaning : MainTask
  main_ended : Outcome → MainTask

-- `stalled` is whether the client of the only transfer never lets it come to an end.
pub record State : Type 0 where
  pub shutdown_flag : Bool
  pub data_task : DataTask
  pub main_task : MainTask
  pub accepted : ℕ
  pub replies : ℕ
  pub released : Bool
  pub stalled : Bool

abbrev pub init : State
init = record {
  shutdown_flag = false;
  data_task = checking;
  main_task = main_checking;
  accepted = 0;
  replies = 0;
  released = false;
  stalled = false;
}

-- One turn of a task. `stay_alive` and `tui` are fixed for a run.
pub data Step (stay_alive tui : Bool) (s t : State) : Type 0 where
  data_stop :
      s.data_task ≡ checking
      → s.shutdown_flag ≡ true
      → t ≡ record s { data_task = data_ended success }
      → Step stay_alive tui s t
  data_go :
      s.data_task ≡ checking
      → s.shutdown_flag ≡ false
      → t ≡ record s { data_task = accepting }
      → Step stay_alive tui s t
  accept_timeout :
      s.data_task ≡ accepting → t ≡ record s { data_task = checking } → Step stay_alive tui s t
  -- The accept or the write of the server's info fails.
  accept_fails :
      s.data_task ≡ accepting
      → t ≡ record s { data_task = data_ended failure }
      → Step stay_alive tui s t
  accept_many :
      stay_alive ≡ true
      → s.data_task ≡ accepting
      → t ≡ record s { data_task = checking; accepted = suc s.accepted }
      → Step stay_alive tui s t
  accept_once :
      (stalls : Bool)
      → stay_alive ≡ false
      → s.data_task ≡ accepting
      → t ≡ record s {
        data_task = transferring;
        accepted = suc s.accepted;
        shutdown_flag = true;
        stalled = stalls;
      }
      → Step stay_alive tui s t
  -- The `await` on the only transfer has no timeout.
  transfer_ends :
      (r : Outcome)
      → s.data_task ≡ transferring
      → s.stalled ≡ false
      → t ≡ record s { data_task = data_ended r }
      → Step stay_alive tui s t
  main_stop :
      s.main_task ≡ main_checking
      → s.shutdown_flag ≡ true
      → t ≡ record s { main_task = joining }
      → Step stay_alive tui s t
  main_go :
      s.main_task ≡ main_checking
      → s.shutdown_flag ≡ false
      → t ≡ record s { main_task = listening }
      → Step stay_alive tui s t
  ping_timeout :
      s.main_task ≡ listening → t ≡ record s { main_task = main_checking } → Step stay_alive tui s t
  -- `recv_from`, `serialize` or `send_to` fails.
  ping_fails :
      s.main_task ≡ listening
      → t ≡ record s { main_task = main_ended failure }
      → Step stay_alive tui s t
  ping :
      s.main_task ≡ listening
      → t ≡ record s {
        main_task = if stay_alive then main_checking else joining;
        replies = suc s.replies;
      }
      → Step stay_alive tui s t
  join_ok :
      s.main_task ≡ joining
      → s.data_task ≡ data_ended success
      → t ≡ record s { main_task = cleaning }
      → Step stay_alive tui s t
  -- The `?` behind `data_handle.await`.
  join_fails :
      s.main_task ≡ joining
      → s.data_task ≡ data_ended failure
      → t ≡ record s { main_task = main_ended failure }
      → Step stay_alive tui s t
  -- The interface is joined, which sets the flag; the handles are released; the flag is cleared.
  clean_ok :
      s.main_task ≡ cleaning
      → t ≡ record s { main_task = main_ended success; released = true; shutdown_flag = false }
      → Step stay_alive tui s t
  clean_fails :
      s.main_task ≡ cleaning
      → t ≡ record s { main_task = main_ended failure }
      → Step stay_alive tui s t
  -- The user quits the interface, which runs until the cleanup joins it.
  tui_quits :
      tui ≡ true
      → s.released ≡ false
      → t ≡ record s { shutdown_flag = true }
      → Step stay_alive tui s t

pub data Reach (stay_alive tui : Bool) : State → Type 0 where
  start : Reach stay_alive tui init
  next : {s t : State} → Reach stay_alive tui s → Step stay_alive tui s t → Reach stay_alive tui t

-- Further turns from a state.
pub data Turns (stay_alive tui : Bool) (s : State) : State → Type 0 where
  here : Turns stay_alive tui s s
  turn :
      {t u : State} → Turns stay_alive tui s t → Step stay_alive tui t u → Turns stay_alive tui s u
