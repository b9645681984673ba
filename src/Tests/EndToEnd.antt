-- ===== src/Tests/EndToEnd.antt =====
-- Both commands, from file to file.
use hubtain.Common.{ℕ, ◌≡◌, refl, true, false, List, [], ◌∷◌, ◌++◌, none, some, arith}
use mathlib.Core.Option
use hubtain.Stream.{poll, await, Arrival}
use hubtain.Stream.Link.{fresh, arrival}
use hubtain.Approval.{approve_all, codes}
use hubtain.Addresses.{
  v4, v6, find_local_ip, udp_srv_bind_addr, local_ip_of, first_some, select_broadcast_addr,
}
use hubtain.Models.Info.{info_wire}
use hubtain.Files.{AsyncFileReader, clone, open_reader}
use hubtain.Files.Streams.{read_many}
use hubtain.Files.Copy.{drained, reads}
use hubtain.Server.{
  FileSrv, new, build, set_stayalive, set_encryption, set_udp_port, set_holepuncher,
}
use hubtain.Serve.{Started, no_handle, punch, begin}
use hubtain.Serve.Data.{server_data, data_info, ping_reply}
use hubtain.Client.{all_well, target_path}
use hubtain.Session.{client_session, server_session}
use hubtain.Session.Plain.{copy_to_stream}
use hubtain.Cli.{SrvFlags, srv_builder, chosen_holepuncher}
use hubtain.Cli.Fetch.{FetchEnv, ArgMatches, IsDeclared, fetched, fetch}
use hubtain.Cli.Main.{Subcommand, serves, main}
use hubtain.Cli.EndToEnd.{connection, srv-fetch}
use hubtain.Tests.Toy.{toy}
use hubtain.Tests.Server.{address, home, srv}
use hubtain.Tests.Client.{info_code, info_laws, reply_code, reply_laws}
use hubtain.Tests.Commands.{main_env, sock, same_bound}

abbrev flags : SrvFlags
flags = record { no_encryption = true; stayalive = false; uses_igd = false; uses_ngrok = false }

abbrev served : FileSrv
served = record srv {
  stay_alive = false;
  encrypted = false;
  client_approval_strategy = approve_all;
  udp_sock = (address 1 255, 42444);
}

abbrev begun : Started
begun = record { tui = false; handle = no_handle }

reaches : main reply_code main_env (Subcommand.srv (some (65 ∷ [])) flags) ≡ serves served begun
unfolding main open_reader build new srv_builder chosen_holepuncher set_udp_port set_stayalive
    set_encryption set_holepuncher udp_srv_bind_addr find_local_ip local_ip_of first_some begin
    punch Option.bind
reaches = refl

abbrev bytes : List ℕ
bytes = 5000 ∷ 2 ∷ 0 ∷ 1 ∷ 65 ∷ []

serializes : info_code.serialize (data_info 5000 (server_data served)) ≡ some bytes
unfolding data_info server_data
serializes = refl

abbrev pieces : List Arrival
pieces =
    arrival (5 ∷ 5000 ∷ [])
    ∷ arrival (2 ∷ 0 ∷ 1 ∷ 65 ∷ 1 ∷ [])
    ∷ record { bytes = 2 ∷ []; more_room = 0; closes = true }
    ∷ []

abbrev network : FetchEnv
network = record {
  connect_url = λ url. none;
  connect_addr = λ addr. some (
      some (
        connection (await (poll (client_session info_code toy none) (fresh 20)) pieces) 8
          (1 ∷ 1 ∷ 1 ∷ [])));
  broadcast_addr = select_broadcast_addr (some (v4 home ∷ []));
  udp = sock;
  is_dir = λ path. true;
  join = λ path name. path ++ (b'/' ∷ name);
  file_calls = λ path. all_well;
}

abbrev no_args : ArgMatches
no_args name = none

declared : IsDeclared no_args
declared name o = refl

replies : ping_reply reply_code served ≡ some (5000 ∷ 1 ∷ 77 ∷ [])
unfolding ping_reply
replies = refl

srv-fetch_example :
    let server =
      poll
        (server_session info_code toy 9 9 5000 (server_data served) none approve_all (λ id. none))
        (fresh 20) in
    ((src : AsyncFileReader) × (clone main_env.files (server_data served).content ≡ some src)
      × ((poll
            (copy_to_stream 0 (drained (read_many src (reads 1 (9 ∷ 9 ∷ []))).0))
            server.1).1.outbox
          ≡ info_wire info_code bytes ++ (1 ∷ 2 ∷ [])))
    × (fetch reply_code network no_args ≡ fetched (codes "./A") (1 ∷ 2 ∷ []))
unfolding target_path data_info server_data
srv-fetch_example =
    srv-fetch info_code info_laws reply_code reply_laws toy main_env (65 ∷ []) (1 ∷ 2 ∷ []) flags
      served begun (v6 ∷ []) [] [] [] home home (address 1 255) (5000 ∷ 1 ∷ 77 ∷ []) 42444 network
      no_args (λ id. none) 9 9 20 20 bytes 1 8 (9 ∷ 9 ∷ []) (1 ∷ 1 ∷ 1 ∷ []) pieces reaches refl
      refl same_bound refl (λ h. h, tt) (refl, refl) tt (refl, refl) refl refl refl replies
      (omega arith) refl refl (λ at. refl) refl declared refl serializes (omega arith) (omega arith)
      (omega arith) (omega arith) (omega arith) (omega arith, (omega arith, tt)) (omega arith)
      (omega arith) (omega arith, (omega arith, (omega arith, tt))) (omega arith) (refl, (refl, tt))
      refl refl refl refl
