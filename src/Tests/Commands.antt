-- ===== src/Tests/Commands.antt =====
-- The commands `srv` and `fetch`, and the progress bar.
use hubtain.Client.{all_well}
use hubtain.Common.{
  ℕ, ◌^◌, ◌≡◌, ◌<◌, refl, Bool, true, false, not, ◌&&◌, List, [], ◌∷◌, ◌++◌, Option, none, some,
  arith, length,
}
use mathlib.Core.Option
use hubtain.Addresses.{find_local_ip, udp_srv_bind_addr, local_ip_of, first_some}
use hubtain.Files.{FileSystem, FilePath, clone, new_writer, poll_write, open_reader}
use hubtain.Files.Streams.{left}
use hubtain.Server.{
  FileSrv, new, build, set_stayalive, set_encryption, set_udp_port, set_holepuncher, v4_addr,
}
use hubtain.Serve.{ServeEnv, no_handle, punch, begin, is_interactive}
use hubtain.Client.Ping.{Udp}
use hubtain.Client.Progress.{
  Turn, delay_over, copy_writes, progress_counter, IsRising, progress_counter-IsRising,
}
use hubtain.Cli.{SrvFlags, srv_builder, chosen_holepuncher}
use hubtain.Cli.Main.{MainEnv, Subcommand, serves, main, main-serves}
use hubtain.Tests.Server.{address, env, srv as built_srv}
use hubtain.Tests.Client.{reply_code}

abbrev pub flags : SrvFlags
flags = record { no_encryption = false; stayalive = true; uses_igd = false; uses_ngrok = false }

abbrev pub started : FileSrv
started = record built_srv { udp_sock = (address 1 255, 42444) }

abbrev terminal : ServeEnv
terminal = record {
  is_tty = true;
  tui_starts = true;
  ngrok_run = λ port. record {
    spawns = false;
    has_stdout = false;
    lines = [];
    from_str = λ line. none;
    exits = false;
  };
  ifaces = none;
  gateway = none;
  set_broadcast = true;
  local_addr = true;
}

abbrev files : FileSystem
files at = some (1 ∷ 2 ∷ [])

abbrev pub sock : Udp
sock = record {
  bind = true;
  set_broadcast = true;
  send_to = λ at. true;
  replies = λ at bytes. some (5000 ∷ 1 ∷ 77 ∷ [], v4_addr (address 1 20) 42444) ∷ [];
}

abbrev pub main_env : MainEnv
main_env = record {
  files = files;
  build_env = env;
  serve_env = terminal;
  fetch_env = record {
    connect_url = λ url. none;
    connect_addr = λ addr. none;
    broadcast_addr = none;
    udp = sock;
    is_dir = λ path. true;
    join = λ path name. path ++ name;
    file_calls = λ path. all_well;
  };
}

pub reaches :
    main reply_code main_env (Subcommand.srv (some (65 ∷ [])) flags)
    ≡ serves started (record { tui = true; handle = no_handle })
unfolding main open_reader build new srv_builder chosen_holepuncher set_udp_port set_stayalive
    set_encryption set_holepuncher udp_srv_bind_addr find_local_ip local_ip_of first_some begin
    punch Option.bind
reaches = refl

main-serves_example :
    (path : FilePath) × (content : List ℕ) × (◌≡◌ {A = Option FilePath}
      (some (65 ∷ []))
      (some path))
    × (files path ≡ some content)
    × (left started.content ≡ content)
    × (clone files started.content ≡ some started.content)
    × (started.data_length ≡ length content)
    × (started.encrypted ≡ not flags.no_encryption)
    × (is_interactive started.client_approval_strategy ≡ started.encrypted)
    × (◌≡◌ {A = Bool} true (not flags.no_encryption && flags.stayalive))
main-serves_example =
    main-serves reply_code main_env (some (65 ∷ [])) flags started
      (record { tui = true; handle = no_handle }) reaches

pub same_bound : (at bound : _) → env.udp_bind at ≡ some bound → bound ≡ at
same_bound at bound e = cc

-- Two ticks, a write that is cut short between them, and one that fails.
abbrev turns : List Turn
turns =
    delay_over ∷ copy_writes (1 ∷ 2 ∷ 3 ∷ []) (some 2) ∷ copy_writes (3 ∷ []) none ∷ delay_over ∷ []

short : length (progress_counter new_writer turns).1.file < 2 ^ 64
unfolding progress_counter poll_write
short = omega arith

progress_counter-IsRising_example :
    IsRising 0
      (progress_counter new_writer turns).0
      (length (progress_counter new_writer turns).1.file)
progress_counter-IsRising_example = progress_counter-IsRising turns short
