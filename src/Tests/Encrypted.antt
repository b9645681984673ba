-- ===== src/Tests/Encrypted.antt =====
-- Both commands with encryption, from file to file.
use hubtain.Common.{ℕ, suc, ◌≡◌, refl, true, false, List, [], ◌∷◌, ◌++◌, none, some, arith, length}
use mathlib.Core.Option
use hubtain.Approval.{codes, interactive, ClientApprover}
use hubtain.Addresses.{
  v4, v6, find_local_ip, udp_srv_bind_addr, local_ip_of, first_some, select_broadcast_addr,
}
use hubtain.EncryptedStream.Server.{EncryptedWriteStream}
use hubtain.Files.{clone, open_reader, poll_read}
use hubtain.Files.Copy.{drained, reads}
use hubtain.Files.Streams.{read_many}
use hubtain.Server.{
  FileSrv, v4_addr, new, build, set_stayalive, set_encryption, set_udp_port, set_holepuncher,
}
use hubtain.Serve.{Started, no_handle, punch, begin}
use hubtain.Serve.Data.{server_data, data_info, ping_reply}
use hubtain.Client.{all_well, failed, target_path}
use hubtain.Client.Ping.{connects_to, find_server_from}
use hubtain.Session.{task_end, turned_down}
use hubtain.Cli.{SrvFlags, srv_builder, chosen_holepuncher, udp_port}
use hubtain.Cli.Meets.{find_server_from-srv_builder}
use hubtain.Cli.TurnedDown.{srv-fetch_turned_down}
use hubtain.Cli.Fetch.{FetchEnv, ArgMatches, IsDeclared, fetched, fetch}
use hubtain.Cli.Main.{Subcommand, serves, main, main-serves}
use hubtain.Cli.Secured.{after_rounds, client_end, server_copy}
use hubtain.Cli.Encrypted.{srv-fetch_encrypted}
use hubtain.Tests.Toy.{toy, toy_laws, toy_exchange, client_key, server_key}
use hubtain.Tests.Server.{address, home, srv, reader}
use hubtain.Tests.Client.{info_code, info_laws, reply_code, reply_laws}
use hubtain.Tests.Commands.{main_env, sock, same_bound}

abbrev pub flags : SrvFlags
flags = record { no_encryption = false; stayalive = false; uses_igd = false; uses_ngrok = false }

abbrev pub served : FileSrv
served = record srv { stay_alive = false; udp_sock = (address 1 255, 42444) }

abbrev pub begun : Started
begun = record { tui = false; handle = no_handle }

pub reaches : main reply_code main_env (Subcommand.srv (some (65 ∷ [])) flags) ≡ serves served begun
unfolding main open_reader build new srv_builder chosen_holepuncher set_udp_port set_stayalive
    set_encryption set_holepuncher udp_srv_bind_addr find_local_ip local_ip_of first_some begin
    punch Option.bind
reaches = refl

-- The user accepts whoever asks.
abbrev yes : ClientApprover
yes id = some true

abbrev bytes : List ℕ
bytes = 5000 ∷ 2 ∷ 1 ∷ 1 ∷ 65 ∷ []

serializes : info_code.serialize (data_info 5000 (server_data served)) ≡ some bytes
unfolding data_info server_data
serializes = refl

abbrev readies : List ℕ
readies = 9 ∷ 9 ∷ []

abbrev gets : List ℕ
gets = 1 ∷ 1 ∷ 1 ∷ []

abbrev network : ClientApprover → FetchEnv
network says = record {
  connect_url = λ url. none;
  connect_addr = λ addr. some (
      some (
        client_end info_code info_laws toy toy_laws client_key server_key toy_exchange says 9 9 100
          served main_env.files 1 readies gets interactive));
  broadcast_addr = select_broadcast_addr (some (v4 home ∷ []));
  udp = sock;
  is_dir = λ path. true;
  join = λ path name. path ++ (b'/' ∷ name);
  file_calls = λ path. all_well;
}

abbrev no_args : ArgMatches
no_args name = none

declared : IsDeclared no_args
declared name o = refl

replies : ping_reply reply_code served ≡ some (5000 ∷ 1 ∷ 77 ∷ [])
unfolding ping_reply
replies = refl

again : clone main_env.files (server_data served).content ≡ some reader
unfolding server_data
again =
    let (p, content, named, at, whole, own, len, encrypted, asks, tui) =
      main-serves reply_code main_env (some (65 ∷ [])) flags served begun reaches in
    own

as_many : length gets ≡ suc (length (drained (read_many reader (reads 1 readies)).0))
unfolding read_many poll_read
as_many = refl

srv-fetch_encrypted_example :
    ((written : EncryptedWriteStream toy) × (server_copy info_code info_laws toy toy_laws client_key
          server_key toy_exchange yes 9 9 100 served main_env.files 1 readies interactive
        ≡ some written))
    × (fetch reply_code (network yes) no_args ≡ fetched (codes "./A") (1 ∷ 2 ∷ []))
unfolding target_path data_info server_data
srv-fetch_encrypted_example =
    srv-fetch_encrypted info_code info_laws reply_code reply_laws toy toy_laws client_key server_key
      toy_exchange main_env (65 ∷ []) (1 ∷ 2 ∷ []) flags served begun (v6 ∷ []) [] [] [] home home
      (address 1 255) (5000 ∷ 1 ∷ 77 ∷ []) 42444 (network yes) no_args yes 9 9 100 bytes 1 readies
      gets reader reaches refl refl same_bound refl (λ h. h, tt) (refl, refl) tt (refl, refl) refl
      refl refl replies (omega arith) refl refl (λ at. refl) refl declared refl refl serializes
      (omega arith) (omega arith) (omega arith) (omega arith) (omega arith) (omega arith)
      (omega arith, (omega arith, tt)) (omega arith) again as_many refl refl

-- The user accepts nobody.
abbrev no_one : ClientApprover
no_one id = some false

cli_builds : build main_env.build_env (srv_builder reader flags) ≡ some served
unfolding build new srv_builder chosen_holepuncher set_udp_port set_stayalive set_encryption
    set_holepuncher udp_srv_bind_addr find_local_ip local_ip_of first_some Option.bind
cli_builds = refl

chosen :
    find_server_from reply_code
      (select_broadcast_addr (some (v4 home ∷ [])))
      udp_port
      sock
      (λ server. true)
    ≡ connects_to (v4_addr (address 1 20) 5000)
chosen =
    find_server_from-srv_builder reply_code main_env.build_env reader flags served (v6 ∷ []) [] []
      [] home home (address 1 255) sock (5000 ∷ 1 ∷ 77 ∷ []) 42444 reply_laws cli_builds same_bound
      refl (λ h. h, tt) (refl, refl) tt (refl, refl) refl refl replies (omega arith) refl refl
      (λ at. refl) refl

srv-fetch_turned_down_example :
    (task_end
        (after_rounds info_code info_laws toy toy_laws client_key server_key toy_exchange no_one 9 9
          100 served interactive).server.0
      ≡ turned_down)
    × (server_copy info_code info_laws toy toy_laws client_key server_key toy_exchange no_one 9 9
          100 served main_env.files 1 readies interactive
        ≡ none)
    × (fetch reply_code (network no_one) no_args ≡ record { ending = failed; file = none })
srv-fetch_turned_down_example =
    srv-fetch_turned_down info_code info_laws reply_code toy toy_laws client_key server_key
      toy_exchange main_env (65 ∷ []) flags served begun (network no_one) no_args
      (v4_addr (address 1 20) 5000) no_one 9 9 100 bytes 1 readies gets reaches refl refl chosen
      refl serializes (omega arith) (omega arith) (omega arith) (omega arith) refl
