-- ===== src/Cli/Encrypted.antt =====
-- `hubtain srv` and `hubtain fetch` on one network, with encryption: from the file on the one host, over the
-- question to the server's user, to the file on the other.
use hubtain.Common.{
  ℕ, suc, ◌+◌, ◌*◌, ◌≤◌, ◌<◌, ◌≡◌, refl, sym, ap, subst, ◌∙◌, true, false, not, List, [], ◌∷◌, ◌++◌,
  none, some, All, length,
}
use hubtain.Framing.{max_chunk_size}
use hubtain.Approval.{codes, ClientApprovalStrategy, interactive, approve_all, ClientApprover}
use hubtain.Addresses.{Ipv4Addr, Ifv4Addr, IfAddr, v4, select_broadcast_addr}
use hubtain.Addresses.Choice.{IsLocal}
use hubtain.Models.{DataSrvInfo, DiscoveryReply, Bincode, BincodeLaws}
use hubtain.EncryptedStream.{Noise, TransportLaws, Keypair}
use hubtain.EncryptedStream.Server.{EncryptedWriteStream}
use hubtain.EncryptedStream.Agreement.{Exchange}
use hubtain.Files.{FilePath, AsyncFileReader, clone}
use hubtain.Files.Streams.{read_many}
use hubtain.Files.Copy.{drained, reads}
use hubtain.Server.{FileSrv, v4_addr, build}
use hubtain.Serve.{Started, is_interactive}
use hubtain.Serve.Data.{server_data, data_info, port_of, ping_reply}
use hubtain.Client.{all_well, reply_buffer, target_path}
use hubtain.Client.Ping.{ping, find_server_from}
use hubtain.Cli.{SrvFlags, udp_port}
use hubtain.Cli.Fetch.{
  FetchEnv, ArgMatches, IsDeclared, here, fetched, fetch, Brings, fetch_connected, fetch_from-found,
}
use hubtain.Cli.Main.{MainEnv, srv, serves, main, main-serves, main_started}
use hubtain.Cli.Meets.{find_server_from-srv_builder}
use hubtain.Cli.EndToEnd.{settings, configured}
use hubtain.Cli.Secured.{client_end, server_copy, client_end-whole}

pub is_interactive-interactive :
    (s : ClientApprovalStrategy) → is_interactive s ≡ true → s ≡ interactive
is_interactive-interactive interactive e = refl
is_interactive-interactive approve_all e = absurd (cc)

module _ (infos : Bincode DataSrvInfo) (info_laws : BincodeLaws infos)
    (replies : Bincode DiscoveryReply) (n : Noise) (laws : TransportLaws n) (c k : Keypair)
    (x : Exchange n laws c k) where
  -- A client that the user of a server from the command line accepts, up to its file.
  pub served_whole :
      (host : MainEnv) (path : FilePath) (content : List ℕ) (sc : SrvFlags) (fsrv : FileSrv)
      (st : Started) (approver : ClientApprover) (accepts₁ accepts₂ room : ℕ) (bytes : List ℕ)
      (size : ℕ) (readies gets : List ℕ) (src : AsyncFileReader)
      → main replies host (srv (some path) sc) ≡ serves fsrv st
      → sc.no_encryption ≡ false
      → host.files path ≡ some content
      → approver (record { pubkey = c.public }) ≡ some true
      → infos.serialize (data_info (port_of fsrv.tcp_sock) (server_data fsrv)) ≡ some bytes
      → length bytes < 256
      → 1 ≤ accepts₁
      → length bytes ≤ accepts₂
      → 8 + length bytes + length x.m₁ + length x.m₂ + length x.m₃ + 19 * length content ≤ room
      → 0 < size
      → size + 16 ≤ max_chunk_size
      → All (λ r. 0 < r) readies
      → length content ≤ length readies
      → clone host.files (server_data fsrv).content ≡ some src
      → length gets ≡ suc (length (drained (read_many src (reads size readies)).0))
      → let info = data_info (port_of fsrv.tcp_sock) (server_data fsrv) in
        let client =
          client_end infos info_laws n laws c k x approver accepts₁ accepts₂ room fsrv host.files
            size readies gets fsrv.client_approval_strategy in
        ((written : EncryptedWriteStream n) × (server_copy infos info_laws n laws c k x approver
              accepts₁ accepts₂ room fsrv host.files size readies fsrv.client_approval_strategy
            ≡ some written))
        × Brings client info content
  served_whole host path content sc fsrv st approver accepts₁ accepts₂ room bytes size readies gets
        src serving secret at says ser small all₁ all₂ enough hs leaves gives reads_all again
        as_many =
      let info = data_info (port_of fsrv.tcp_sock) (server_data fsrv) in
      let (reader, opened, built, begun) = main_started replies host path sc fsrv st serving in
      let (p, whole_file, named, read, whole, own, len, encrypted, asks, tui) =
        main-serves replies host (some path) sc fsrv st serving in
      let on : fsrv.encrypted ≡ true = encrypted ∙ ap not secret in
      let asked : interactive ≡ fsrv.client_approval_strategy =
        sym (is_interactive-interactive fsrv.client_approval_strategy (asks ∙ on)) in
      subst
        (λ strategy.
          let client =
            client_end infos info_laws n laws c k x approver accepts₁ accepts₂ room fsrv host.files
              size readies gets strategy in
          ((written : EncryptedWriteStream n) × (server_copy infos info_laws n laws c k x approver
                accepts₁ accepts₂ room fsrv host.files size readies strategy
              ≡ some written))
          × Brings client info content)
        asked
        (client_end-whole infos info_laws n laws c k x approver accepts₁ accepts₂ room fsrv
          host.files path content reader src host.build_env (settings sc) bytes size readies gets at
          opened (ap (build host.build_env) (configured reader sc) ∙ built) on says ser small all₁
          all₂ enough hs leaves gives reads_all again as_many)

module _ (infos : Bincode DataSrvInfo) (info_laws : BincodeLaws infos)
    (replies : Bincode DiscoveryReply) (reply_laws : BincodeLaws replies) (n : Noise)
    (laws : TransportLaws n) (c k : Keypair) (x : Exchange n laws c k) where
  -- `hubtain srv` has come to its loop, over a file with this content, and without `--no-encryption`.
  -- The hosts' first local interfaces are such that the broadcast address at the client is the server's
  -- address with 255 as last octet; the UDP socket is bound where it was to be; the client's ping goes
  -- out, and brings just the server's reply, which fits its buffer; the client's connection is open,
  -- and the calls on its file succeed; the info is shorter than 256 bytes, its two writes take it whole, and the
  -- server's socket has the room; the noise pattern runs as documented with the keys that the two
  -- generate; the server's user accepts the client with this key; the buffers of the two copies leave
  -- room for the tag of a message; each of the server's reads gives a byte at least, they are as many
  -- as the bytes, and the client makes one read more than the server sends messages. Then the server's
  -- copy, on the stream that three rounds of the session leave it, takes the whole file; and once that
  -- has come to the client, and the end of the stream, which the server drops behind its copy, `hubtain fetch`, without a server's address, succeeds with a file in the
  -- current directory, by the name that the server gives, with exactly this content.
  pub srv-fetch_encrypted :
      (host : MainEnv) (path : FilePath) (content : List ℕ) (sc : SrvFlags) (fsrv : FileSrv)
      (st : Started) (front back their_front their_back : List IfAddr) (home theirs : Ifv4Addr)
      (to : Ipv4Addr) (payload : List ℕ) (peer_port : ℕ) (env : FetchEnv) (args : ArgMatches)
      (approver : ClientApprover) (accepts₁ accepts₂ room : ℕ) (bytes : List ℕ) (size : ℕ)
      (readies gets : List ℕ) (src : AsyncFileReader)
      → main replies host (srv (some path) sc) ≡ serves fsrv st
      → sc.no_encryption ≡ false
      → host.files path ≡ some content
      → ((at bound : Ipv4Addr × ℕ) → host.build_env.udp_bind at ≡ some bound → bound ≡ at)
      → host.build_env.ifaces ≡ some (front ++ (v4 home ∷ back))
      → All (λ a. ¬ IsLocal a) front
      → IsLocal (v4 home)
      → All (λ a. ¬ IsLocal a) their_front
      → IsLocal (v4 theirs)
      → theirs.broadcast ≡ some to
      → to ≡ record home.ip { d = 255 }
      → env.broadcast_addr ≡ select_broadcast_addr (some (their_front ++ (v4 theirs ∷ their_back)))
      → ping_reply replies fsrv ≡ some payload
      → length payload ≤ reply_buffer
      → env.udp.bind ≡ true
      → env.udp.set_broadcast ≡ true
      → ((at : Ipv4Addr × ℕ) → env.udp.send_to at ≡ true)
      → env.udp.replies fsrv.udp_sock ping ≡ some (payload, v4_addr home.ip peer_port) ∷ []
      → IsDeclared args
      → args (codes "SERVER_URL") ≡ none
      → approver (record { pubkey = c.public }) ≡ some true
      → infos.serialize (data_info (port_of fsrv.tcp_sock) (server_data fsrv)) ≡ some bytes
      → length bytes < 256
      → 1 ≤ accepts₁
      → length bytes ≤ accepts₂
      → 8 + length bytes + length x.m₁ + length x.m₂ + length x.m₃ + 19 * length content ≤ room
      → 0 < size
      → size + 16 ≤ max_chunk_size
      → All (λ r. 0 < r) readies
      → length content ≤ length readies
      → clone host.files (server_data fsrv).content ≡ some src
      → length gets ≡ suc (length (drained (read_many src (reads size readies)).0))
      → env.connect_addr (v4_addr home.ip (port_of fsrv.tcp_sock))
        ≡ some (
            some (
              client_end infos info_laws n laws c k x approver accepts₁ accepts₂ room fsrv
                host.files size readies gets fsrv.client_approval_strategy))
      → env.file_calls (
          target_path env.is_dir env.join here
            (data_info (port_of fsrv.tcp_sock) (server_data fsrv)))
        ≡ all_well
      → ((written : EncryptedWriteStream n) × (server_copy infos info_laws n laws c k x approver
              accepts₁ accepts₂ room fsrv host.files size readies fsrv.client_approval_strategy
            ≡ some written))
        × (fetch replies env args
            ≡ fetched
                (target_path env.is_dir env.join here
                  (data_info (port_of fsrv.tcp_sock) (server_data fsrv)))
                content)
  srv-fetch_encrypted host path content sc fsrv st front back their_front their_back home theirs to
        payload peer_port env args approver accepts₁ accepts₂ room bytes size readies gets src
        serving secret at as_asked ifaces before local their_before their_local sends_to meets
        broadcasts replied fits opens broad goes answers declared no_url says ser small all₁ all₂
        enough hs leaves gives reads_all again as_many connects makes =
      let (reader, opened, built, begun) = main_started replies host path sc fsrv st serving in
      let (copied, brings) =
        served_whole infos info_laws replies n laws c k x host path content sc fsrv st approver
          accepts₁ accepts₂ room bytes size readies gets src serving secret at says ser small all₁
          all₂ enough hs leaves gives reads_all again as_many in
      let found =
        find_server_from-srv_builder replies host.build_env reader sc fsrv front back their_front
          their_back home theirs to env.udp payload peer_port reply_laws built as_asked ifaces
          before local their_before their_local sends_to meets replied fits opens broad goes
          answers in
      (
        copied,
        fetch_connected replies env args _ _ content declared
            (fetch_from-found replies env args (v4_addr home.ip (port_of fsrv.tcp_sock)) _ no_url
              (ap (λ o. find_server_from replies o udp_port env.udp (λ server. true)) broadcasts
                ∙ found)
              connects)
            makes brings,
      )
