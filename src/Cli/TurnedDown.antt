-- ===== src/Cli/TurnedDown.antt =====
-- `hubtain srv` and `hubtain fetch` with encryption, where the server's user turns the client down.
use hubtain.Common.{
  ℕ, Bool, [], ◌+◌, ◌≤◌, ◌<◌, ◌≡◌, sym, ap, ◌∙◌, true, false, not, List, Option, none, some, length,
}
use hubtain.Stream.{Sock, Poll, error}
use hubtain.Approval.{codes, interactive, ClientApprover}
use hubtain.Models.{DataSrvInfo, DiscoveryReply, Bincode, BincodeLaws}
use hubtain.EncryptedStream.{Noise, TransportLaws, Keypair, EncStreamErr}
use hubtain.EncryptedStream.Agreement.{Exchange}
use hubtain.Files.{FilePath}
use hubtain.Server.{FileSrv, SocketAddr}
use hubtain.Serve.{Started}
use hubtain.Serve.Data.{server_data, data_info, port_of}
use hubtain.Client.{Copied, failed, waiting, target_path}
use hubtain.Client.Download.{download_without_handshake}
use hubtain.Client.Ping.{connects_to, find_server_from}
use hubtain.Session.{SessionErr, handshake_err, task_end, turned_down}
use hubtain.Session.Download.{is_ephemeral}
use hubtain.Session.Rounds.{session-turned_down}
use hubtain.Cli.{SrvFlags, udp_port}
use hubtain.Cli.Fetch.{
  Session, told, or_here, placed, FetchEnv, ArgMatches, fetch, fetch_from, fetch_into,
  fetch_from-found,
}
use hubtain.Cli.Main.{MainEnv, srv, serves, main, main-serves}
use hubtain.Cli.Secured.{
  encrypted_connection, encrypted_copy, after_rounds, client_end, server_copy,
}
use hubtain.Cli.Encrypted.{is_interactive-interactive}

-- `fetch` with a connection on which the handshake fails.
fetch_without_handshake :
    (code : Bincode DiscoveryReply) (env : FetchEnv) (sc : ArgMatches) (client : Session)
    (info : DataSrvInfo) (copied : Copied)
    → fetch_from code env (sc (codes "SERVER_URL")) ≡ some client
    → client ≡ told info failed copied
    → fetch code env sc ≡ record { ending = failed; file = none }
unfolding fetch fetch_into
fetch_without_handshake code env sc client info copied connects is =
    let e = connects ∙ ap some is in
    let path = target_path env.is_dir env.join (or_here (sc (codes "FILE"))) info in
    rw e (ap (placed path) (download_without_handshake (env.file_calls path) info copied))

connection-error :
    (n : Noise) (laws : TransportLaws n)
    (r : Poll SessionErr (DataSrvInfo × Option n.Transport) × Sock) (came : List ℕ) (closes : Bool)
    (size : ℕ) (gets : List ℕ) (info : DataSrvInfo) (e : EncStreamErr)
    → r.0 ≡ error (handshake_err info e)
    → encrypted_connection n laws r came closes size gets
      ≡ told info failed (record { chunks = []; ends = waiting })
connection-error n laws (p, s) came closes size gets info e is =
    ap (λ q. encrypted_connection n laws (q, s) came closes size gets) is

module _ (infos : Bincode DataSrvInfo) (info_laws : BincodeLaws infos)
    (replies : Bincode DiscoveryReply) (n : Noise) (laws : TransportLaws n) (c k : Keypair)
    (x : Exchange n laws c k) where
  -- `hubtain srv` has come to its loop, without `--no-encryption`; a client finds the server, on an open
  -- connection with room for what the two send, with keys for which the noise pattern runs as documented,
  -- and with an info of less than 256 bytes that the two writes take whole; and the server's user turns
  -- the client with this key down. Then after three rounds the server's task has ended without an
  -- error, and nothing of the file is copied; and `hubtain fetch` fails and makes no file.
  pub srv-fetch_turned_down :
      (host : MainEnv) (path : FilePath) (sc : SrvFlags) (fsrv : FileSrv) (st : Started)
      (env : FetchEnv) (args : ArgMatches) (addr : SocketAddr) (approver : ClientApprover)
      (accepts₁ accepts₂ room : ℕ) (bytes : List ℕ) (size : ℕ) (readies gets : List ℕ)
      → main replies host (srv (some path) sc) ≡ serves fsrv st
      → sc.no_encryption ≡ false
      → args (codes "SERVER_URL") ≡ none
      → find_server_from replies env.broadcast_addr udp_port env.udp (λ server. true)
        ≡ connects_to addr
      → approver (record { pubkey = c.public }) ≡ some false
      → infos.serialize (data_info (port_of fsrv.tcp_sock) (server_data fsrv)) ≡ some bytes
      → length bytes < 256
      → 1 ≤ accepts₁
      → length bytes ≤ accepts₂
      → 8 + length bytes + length x.m₁ + length x.m₂ + length x.m₃ ≤ room
      → env.connect_addr addr
        ≡ some (
            some (
              client_end infos info_laws n laws c k x approver accepts₁ accepts₂ room fsrv
                host.files size readies gets fsrv.client_approval_strategy))
      → (task_end
            (after_rounds infos info_laws n laws c k x approver accepts₁ accepts₂ room fsrv
              fsrv.client_approval_strategy).server.0
          ≡ turned_down)
        × (server_copy infos info_laws n laws c k x approver accepts₁ accepts₂ room fsrv host.files
              size readies fsrv.client_approval_strategy
            ≡ none)
        × (fetch replies env args ≡ record { ending = failed; file = none })
  srv-fetch_turned_down host path sc fsrv st env args addr approver accepts₁ accepts₂ room bytes
        size readies gets serving secret no_url chosen says ser small all₁ all₂ enough connects =
      let (p, content, named, read, whole, own, len, encrypted, asks, tui) =
        main-serves replies host (some path) sc fsrv st serving in
      let on : fsrv.encrypted ≡ true = encrypted ∙ ap not secret in
      let asked : interactive ≡ fsrv.client_approval_strategy =
        sym (is_interactive-interactive fsrv.client_approval_strategy (asks ∙ on)) in
      let (fails, ends) =
        session-turned_down infos info_laws n laws c k x approver room (server_data fsrv)
          (port_of fsrv.tcp_sock) accepts₁ accepts₂ bytes (is_ephemeral fsrv on) ser small all₁ all₂
          enough says in
      let l = after_rounds infos info_laws n laws c k x approver accepts₁ accepts₂ room fsrv in
      let client =
        client_end infos info_laws n laws c k x approver accepts₁ accepts₂ room fsrv host.files size
          readies gets in
      let copy =
        server_copy infos info_laws n laws c k x approver accepts₁ accepts₂ room fsrv host.files
          size readies in
      (
        ap (λ s. task_end (l s).server.0) (sym asked) ∙ ends,
        ap copy (sym asked)
            ∙ ap
                (λ e.
                  encrypted_copy n laws host.files (server_data fsrv) size readies e
                    (l interactive).server.1)
                ends,
        fetch_without_handshake replies env args (client interactive) _ _
            (fetch_from-found replies env args addr (client interactive) no_url chosen
              (connects ∙ ap (λ s. some (some (client s))) (sym asked)))
            (connection-error n laws (l interactive).client _ _ size gets _ _ fails),
      )
