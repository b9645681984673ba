-- ===== src/Cli/Tunnel.antt =====
-- `hubtain srv --ngrok` and `hubtain fetch` with the address that `serve` logs: main.rs, client.rs
-- (`DownloadClient::connect`), and server/ngrok.rs.
use hubtain.Common.{
  ℕ, suc, ◌+◌, ◌*◌, ◌≤◌, ◌<◌, ◌≡◌, refl, ap, ◌∙◌, true, false, List, ◌++◌, some, All, length, arith,
  sym,
}
use mathlib.Core.Option
use hubtain.Framing.{max_chunk_size}
use hubtain.Approval.{codes, ClientApprover}
use hubtain.Models.{DataSrvInfo, DiscoveryReply, Bincode, BincodeLaws}
use hubtain.EncryptedStream.{Noise, TransportLaws, Keypair}
use hubtain.EncryptedStream.Server.{EncryptedWriteStream}
use hubtain.EncryptedStream.Agreement.{Exchange}
use hubtain.Files.{FilePath, AsyncFileReader, clone}
use hubtain.Files.Streams.{read_many}
use hubtain.Files.Copy.{drained, reads}
use hubtain.Addresses.{Ipv4Addr}
use hubtain.Server.{FileSrv, ngrok, v4_addr}
use hubtain.Serve.{ServeEnv, Started, ngrok_handle, punch, begin}
use hubtain.Serve.Tunnel.{get_tunnel}
use hubtain.Serve.Data.{server_data, data_info, port_of}
use hubtain.Client.{all_well, target_path}
use hubtain.Cli.{SrvFlags, chosen_holepuncher}
use hubtain.Cli.Fetch.{
  FetchEnv, ArgMatches, IsDeclared, here, fetched, fetch, connect, fetch_connected,
  fetch_from-named,
}
use hubtain.Cli.Main.{MainEnv, srv, serves, main, main_started}
use hubtain.Cli.Started.{srv_builder-build}
use hubtain.Cli.Secured.{client_end, server_copy}
use hubtain.Cli.Encrypted.{served_whole}

-- The handle of a start is what the hole puncher gave.
begin_handle :
    (host : ServeEnv) (self : FileSrv) (st : Started)
    → begin host self ≡ some st
    → punch host self.holepuncher self.tcp_sock ≡ some st.handle
unfolding begin
begin_handle host self st e = ground arith

tunnelled :
    (host : ServeEnv) (self : FileSrv) (st : Started) (ip : Ipv4Addr) (port : ℕ) (url : List ℕ)
    → begin host self ≡ some st
    → self.holepuncher ≡ ngrok
    → self.tcp_sock ≡ v4_addr ip port
    → (get_tunnel (host.ngrok_run port)).0 ≡ some url
    → st.handle ≡ ngrok_handle url
unfolding punch
tunnelled host self st ip port url begun hole addr at =
    let gave : punch host ngrok (v4_addr ip port) ≡ some st.handle =
      (λ i. punch host (sym hole i) (sym addr i)) ∙ begin_handle host self st begun in
    let given : some (ngrok_handle url) ≡ some st.handle = rw at at gave in cc

asks_ngrok :
    (sc : SrvFlags) → sc.uses_igd ≡ false → sc.uses_ngrok ≡ true → chosen_holepuncher sc ≡ ngrok
unfolding chosen_holepuncher
asks_ngrok sc off on = rw (off, on) refl

module _ (infos : Bincode DataSrvInfo) (info_laws : BincodeLaws infos)
    (replies : Bincode DiscoveryReply) (n : Noise) (laws : TransportLaws n) (c k : Keypair)
    (x : Exchange n laws c k) where
  -- `hubtain srv --ngrok` has come to its loop, with encryption, and over a file with this content; what
  -- `ngrok` printed gave the tunnel's URL, `tcp://` and an address. Then the handle that `serve` holds has
  -- the URL with the scheme; and with the address behind the scheme, where the tunnel leads to the
  -- server, the server's user accepts the client, and the connection, the buffers, the reads and the
  -- calls on the file are such that the copies can run: the server's copy takes the whole file, and
  -- `hubtain fetch` succeeds, once that and the end of the stream have come, with a file in the current
  -- directory, by the name that the server gives, with exactly this content.
  pub srv-fetch_tunnel :
      (host : MainEnv) (path : FilePath) (content : List ℕ) (sc : SrvFlags) (fsrv : FileSrv)
      (st : Started) (ip : Ipv4Addr) (port : ℕ) (address : List ℕ) (env : FetchEnv)
      (stripped : ArgMatches) (approver : ClientApprover) (accepts₁ accepts₂ room : ℕ)
      (bytes : List ℕ) (size : ℕ) (readies gets : List ℕ) (src : AsyncFileReader)
      → main replies host (srv (some path) sc) ≡ serves fsrv st
      → sc.no_encryption ≡ false
      → sc.uses_igd ≡ false
      → sc.uses_ngrok ≡ true
      → host.files path ≡ some content
      → fsrv.tcp_sock ≡ v4_addr ip port
      → (get_tunnel (host.serve_env.ngrok_run port)).0 ≡ some (codes "tcp://" ++ address)
      → stripped (codes "SERVER_URL") ≡ some address
      → IsDeclared stripped
      → approver (record { pubkey = c.public }) ≡ some true
      → infos.serialize (data_info (port_of fsrv.tcp_sock) (server_data fsrv)) ≡ some bytes
      → length bytes < 256
      → 1 ≤ accepts₁
      → length bytes ≤ accepts₂
      → 8 + length bytes + length x.m₁ + length x.m₂ + length x.m₃ + 19 * length content ≤ room
      → 0 < size
      → size + 16 ≤ max_chunk_size
      → All (λ r. 0 < r) readies
      → length content ≤ length readies
      → clone host.files (server_data fsrv).content ≡ some src
      → length gets ≡ suc (length (drained (read_many src (reads size readies)).0))
      → env.connect_url address
        ≡ some (
            some (
              client_end infos info_laws n laws c k x approver accepts₁ accepts₂ room fsrv
                host.files size readies gets fsrv.client_approval_strategy))
      → env.file_calls (
          target_path env.is_dir env.join here
            (data_info (port_of fsrv.tcp_sock) (server_data fsrv)))
        ≡ all_well
      → (st.handle ≡ ngrok_handle (codes "tcp://" ++ address))
        × ((written : EncryptedWriteStream n) × (server_copy infos info_laws n laws c k x approver
                accepts₁ accepts₂ room fsrv host.files size readies fsrv.client_approval_strategy
              ≡ some written))
        × (fetch replies env stripped
            ≡ fetched
                (target_path env.is_dir env.join here
                  (data_info (port_of fsrv.tcp_sock) (server_data fsrv)))
                content)
  unfolding connect Option.bind
  srv-fetch_tunnel host path content sc fsrv st ip port address env stripped approver accepts₁
        accepts₂ room bytes size readies gets src serving secret no_igd by_ngrok at addr announced
        without declared says ser small all₁ all₂ enough hs leaves gives reads_all again as_many
        connects makes =
      let (reader, opened, built, begun) = main_started replies host path sc fsrv st serving in
      let (encrypts, asks, alive, hole, long, same) =
        srv_builder-build host.build_env reader sc fsrv built in
      let (copied, brings) =
        served_whole infos info_laws replies n laws c k x host path content sc fsrv st approver
          accepts₁ accepts₂ room bytes size readies gets src serving secret at says ser small all₁
          all₂ enough hs leaves gives reads_all again as_many in
      (
        tunnelled host.serve_env fsrv st ip port (codes "tcp://" ++ address) begun
            (hole ∙ asks_ngrok sc no_igd by_ngrok) addr announced,
        copied,
        fetch_connected replies env stripped _ _ content declared
            (fetch_from-named replies env stripped address without ∙ ap connect connects) makes
            brings,
      )
