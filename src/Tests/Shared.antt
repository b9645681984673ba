-- ===== src/Tests/Shared.antt =====
-- Both commands through a tunnel.
use hubtain.Common.{
  suc, ℕ, ◌≡◌, refl, true, false, Bool-cases, List, [], ◌∷◌, ◌++◌, none, some, inl, inr, arith,
  length, if◌then◌else◌,
}
use mathlib.Core.Option
use hubtain.Approval.{codes, interactive, ClientApprover}
use hubtain.Addresses.{find_local_ip, udp_srv_bind_addr, local_ip_of, first_some}
use hubtain.EncryptedStream.Server.{EncryptedWriteStream}
use hubtain.Files.{clone, open_reader, poll_read}
use hubtain.Files.Copy.{drained, reads}
use hubtain.Files.Streams.{read_many}
use hubtain.Server.{
  FileSrv, ngrok, new, build, set_stayalive, set_encryption, set_udp_port, set_holepuncher,
}
use hubtain.Serve.{Started, ngrok_handle, punch, begin}
use hubtain.Serve.Tunnel.{NgrokRun, tunnel_url, get_tunnel}
use hubtain.Serve.Data.{server_data, data_info}
use hubtain.Client.{target_path}
use hubtain.Cli.{SrvFlags, srv_builder, chosen_holepuncher}
use hubtain.Cli.Fetch.{Session, FetchEnv, ArgMatches, IsDeclared, fetched, fetch}
use hubtain.Cli.Main.{MainEnv, Subcommand, serves, main, main-serves}
use hubtain.Cli.Secured.{client_end, server_copy}
use hubtain.Cli.Tunnel.{srv-fetch_tunnel}
use hubtain.Tests.Toy.{toy, toy_laws, toy_exchange, client_key, server_key}
use hubtain.Tests.Server.{address, srv, reader}
use hubtain.Tests.Client.{info_code, info_laws, reply_code}
use hubtain.Tests.Commands.{main_env}
use hubtain.Tests.Transfer.{same, same→eq}

abbrev url : List ℕ
url = codes "tcp://" ++ (104 ∷ [])

abbrev run : NgrokRun
run = record {
  spawns = true;
  has_stdout = true;
  lines = some [] ∷ [];
  from_str = λ line. some (record { addr = []; url = url; msg = []; lvl = [] });
  exits = false;
}

abbrev host : MainEnv
host = record main_env { serve_env = record main_env.serve_env { ngrok_run = λ port. run } }

abbrev flags : SrvFlags
flags = record { no_encryption = false; stayalive = false; uses_igd = false; uses_ngrok = true }

abbrev served : FileSrv
served = record srv { stay_alive = false; udp_sock = (address 1 255, 42444); holepuncher = ngrok }

abbrev begun : Started
begun = record { tui = false; handle = ngrok_handle url }

reaches : main reply_code host (Subcommand.srv (some (65 ∷ [])) flags) ≡ serves served begun
unfolding main open_reader build new srv_builder chosen_holepuncher set_udp_port set_stayalive
    set_encryption set_holepuncher udp_srv_bind_addr find_local_ip local_ip_of first_some begin
    punch get_tunnel tunnel_url Option.bind
reaches = refl

finds : (get_tunnel run).0 ≡ some url
unfolding get_tunnel tunnel_url
finds = refl

abbrev yes : ClientApprover
yes id = some true

abbrev bytes : List ℕ
bytes = 5000 ∷ 2 ∷ 1 ∷ 1 ∷ 65 ∷ []

serializes : info_code.serialize (data_info 5000 (server_data served)) ≡ some bytes
unfolding data_info server_data
serializes = refl

abbrev client : Session
client =
    client_end info_code info_laws toy toy_laws client_key server_key toy_exchange yes 9 9 100
      served host.files 1 (9 ∷ 9 ∷ []) (1 ∷ 1 ∷ 1 ∷ []) interactive

abbrev network : FetchEnv
network = record host.fetch_env {
  connect_url = λ url. some (some client);
  is_dir = λ path. true;
  join = λ path name. path ++ (b'/' ∷ name);
}

abbrev named : List ℕ → ArgMatches
named server name = if same name (codes "SERVER_URL") then some server else none

declared : IsDeclared (named (104 ∷ []))
declared name o = elim (Bool-cases (same name (codes "SERVER_URL"))) [
  | inl e ↦ absurd (o (inl (same→eq name (codes "SERVER_URL") e)))
  | inr e ↦ rw e
]

again : clone host.files (server_data served).content ≡ some reader
unfolding server_data
again =
    let (p, content, named, at, whole, own, len, encrypted, asks, tui) =
      main-serves reply_code host (some (65 ∷ [])) flags served begun reaches in
    own

abbrev gets : List ℕ
gets = 1 ∷ 1 ∷ 1 ∷ []

as_many : length gets ≡ suc (length (drained (read_many reader (reads 1 (9 ∷ 9 ∷ []))).0))
unfolding read_many poll_read
as_many = refl

srv-fetch_tunnel_example :
    (begun.handle ≡ ngrok_handle url)
    × ((written : EncryptedWriteStream toy) × (server_copy info_code info_laws toy toy_laws
            client_key server_key toy_exchange yes 9 9 100 served host.files 1
            (9 ∷ 9 ∷ [])
            interactive
          ≡ some written))
    × (fetch reply_code network (named (104 ∷ [])) ≡ fetched (codes "./A") (1 ∷ 2 ∷ []))
unfolding target_path data_info server_data
srv-fetch_tunnel_example =
    srv-fetch_tunnel info_code info_laws reply_code toy toy_laws client_key server_key toy_exchange
      host (65 ∷ []) (1 ∷ 2 ∷ []) flags served begun (address 0 0) 5000 (104 ∷ []) network
      (named (104 ∷ [])) yes 9 9 100 bytes 1 (9 ∷ 9 ∷ []) gets reader reaches refl refl refl refl
      refl finds refl declared refl serializes (omega arith) (omega arith) (omega arith)
      (omega arith) (omega arith) (omega arith) (omega arith, (omega arith, tt)) (omega arith) again
      as_many refl refl
