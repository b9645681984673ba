-- ===== src/Cli/EndToEnd.antt =====
-- `hubtain srv --no-encryption` and `hubtain fetch` on one network, from the file on the one host to the file
-- on the other.
use hubtain.Common.{
  ℕ, suc, ◌+◌, ◌≤◌, ◌<◌, ◌≡◌, refl, ap, ◌∙◌, true, false, not, List, [], ◌∷◌, ◌++◌, map, Option,
  none, some, All, length, concat,
}
use hubtain.Stream.{Sock, Poll, value, error, panic, pending, poll, await, Arrival, arrive_all}
use hubtain.Stream.Link.{fresh}
use hubtain.Stream.Resume.{IsOrdered}
use hubtain.Approval.{codes, ClientApprover}
use hubtain.Addresses.{Ipv4Addr, Ifv4Addr, IfAddr, v4, select_broadcast_addr}
use hubtain.Addresses.Choice.{IsLocal}
use hubtain.Models.{DataSrvInfo, DiscoveryReply, Bincode, BincodeLaws}
use hubtain.Models.Info.{info_wire}
use hubtain.EncryptedStream.{Noise}
use hubtain.Files.{FilePath, AsyncFileReader, clone}
use hubtain.Files.Streams.{read_many}
use hubtain.Files.Copy.{drained, reads}
use hubtain.Server.{FileSrv, v4_addr, new, build}
use hubtain.Server.Builder.{Setting, stayalive, encryption, holepuncher, apply, configure}
use hubtain.Serve.{Started}
use hubtain.Serve.Data.{server_data, data_info, port_of, ping_reply}
use hubtain.Client.{
  went_well, failed, panicked, waiting, Copied, all_well, reply_buffer, target_path,
}
use hubtain.Client.Ping.{ping, find_server_from}
use hubtain.Session.{SessionErr, handshake_err, client_session, server_session}
use hubtain.Session.Plain.{copy_to_stream, copy_from_stream}
use hubtain.Session.Plain.Download.{plain-download_to_file}
use hubtain.Cli.{SrvFlags, srv_builder, chosen_holepuncher, udp_port}
use hubtain.Cli.Fetch.{
  Session, untold, told, FetchEnv, ArgMatches, IsDeclared, here, fetched, fetch, fetch_connected,
  fetch_from-found,
}
use hubtain.Cli.Main.{MainEnv, srv, serves, main, main-serves, main_started}
use hubtain.Cli.Meets.{find_server_from-srv_builder}

-- No copy has begun.
abbrev no_copy : Copied
no_copy = record { chunks = []; ends = waiting }

-- The client's connection as `fetch` sees it, on a stream without encryption, of which the copy reads so.
abbrev pub connection :
    {T : Type 0} → Poll SessionErr (DataSrvInfo × Option T) × Sock → ℕ → List ℕ → Session
connection (value (info, t), s) into gets =
    told info went_well (copy_from_stream into gets s.inbox s.eof)
connection (error (handshake_err info e), s) into gets = told info failed no_copy
connection (error e, s) into gets = untold failed
connection (panic, s) into gets = untold panicked
connection (pending f, s) into gets = untold waiting

-- The command line's settings, one after the other.
abbrev pub settings : SrvFlags → List Setting
settings sc =
    Setting.udp_port udp_port
    ∷ stayalive sc.stayalive
    ∷ encryption (not sc.no_encryption)
    ∷ holepuncher (chosen_holepuncher sc)
    ∷ []

pub configured :
    (reader : AsyncFileReader) (sc : SrvFlags)
    → configure (new reader) (settings sc) ≡ srv_builder reader sc
unfolding configure apply srv_builder
configured reader sc = refl

connection-value :
    {T : Type 0} (r : Poll SessionErr (DataSrvInfo × Option T) × Sock) (into : ℕ) (gets : List ℕ)
    (info : DataSrvInfo) (t : Option T)
    → r.0 ≡ value (info, t)
    → connection r into gets ≡ connection (value (info, t), r.1) into gets
connection-value (p, s) into gets info t e = ap (λ q. connection (q, s) into gets) e

module _ (infos : Bincode DataSrvInfo) (info_laws : BincodeLaws infos)
    (replies : Bincode DiscoveryReply) (reply_laws : BincodeLaws replies) (n : Noise) where
  -- `hubtain srv --no-encryption` has come to its loop, over a file with this content. The hosts' first
  -- local interfaces are such that the broadcast address at the client is the server's address with
  -- 255 as last octet; the UDP socket is bound where it was to be; the client's ping goes out, and
  -- brings just the server's reply, which fits its buffer; the client's connection is open, and the
  -- calls on its file succeed; the info is shorter than 256 bytes, its two writes take it whole, and the server's
  -- socket has the room; each read of the two copies gives a byte at least, while there is one; the
  -- server's are as many as the bytes, and the client's one more. Then what the server has sent once it has copied the file is the info and
  -- the content; and if just that arrives at the client, in pieces of any size, before the
  -- stream ends, then `hubtain fetch`,
  -- without a server's address, succeeds with a file in the current directory, by the name that the
  -- server gives, with exactly this content.
  pub srv-fetch :
      (host : MainEnv) (path : FilePath) (content : List ℕ) (sc : SrvFlags) (fsrv : FileSrv)
      (st : Started) (front back their_front their_back : List IfAddr) (home theirs : Ifv4Addr)
      (to : Ipv4Addr) (payload : List ℕ) (peer_port : ℕ) (env : FetchEnv) (args : ArgMatches)
      (approver : ClientApprover) (accepts₁ accepts₂ room client_room : ℕ) (bytes : List ℕ)
      (size into : ℕ) (readies gets : List ℕ) (arrivals : List Arrival)
      → main replies host (srv (some path) sc) ≡ serves fsrv st
      → sc.no_encryption ≡ true
      → host.files path ≡ some content
      → ((at bound : Ipv4Addr × ℕ) → host.build_env.udp_bind at ≡ some bound → bound ≡ at)
      → host.build_env.ifaces ≡ some (front ++ (v4 home ∷ back))
      → All (λ x. ¬ IsLocal x) front
      → IsLocal (v4 home)
      → All (λ x. ¬ IsLocal x) their_front
      → IsLocal (v4 theirs)
      → theirs.broadcast ≡ some to
      → to ≡ record home.ip { d = 255 }
      → env.broadcast_addr ≡ select_broadcast_addr (some (their_front ++ (v4 theirs ∷ their_back)))
      → ping_reply replies fsrv ≡ some payload
      → length payload ≤ reply_buffer
      → env.udp.bind ≡ true
      → env.udp.set_broadcast ≡ true
      → ((at : Ipv4Addr × ℕ) → env.udp.send_to at ≡ true)
      → env.udp.replies fsrv.udp_sock ping ≡ some (payload, v4_addr home.ip peer_port) ∷ []
      → IsDeclared args
      → args (codes "SERVER_URL") ≡ none
      → infos.serialize (data_info (port_of fsrv.tcp_sock) (server_data fsrv)) ≡ some bytes
      → length bytes < 256
      → 1 ≤ accepts₁
      → length bytes ≤ accepts₂
      → suc (length bytes) + length content ≤ room
      → 0 < size
      → All (λ r. 0 < r) readies
      → length content ≤ length readies
      → 0 < into
      → All (λ r. 0 < r) gets
      → length content < length gets
      → IsOrdered arrivals
      → concat (map (λ (d : Arrival). d.bytes) arrivals) ≡ info_wire infos bytes ++ content
      → (arrive_all (fresh client_room) arrivals).eof ≡ true
      → env.connect_addr (v4_addr home.ip (port_of fsrv.tcp_sock))
        ≡ some (
            some (
              connection
                (await (poll (client_session infos n none) (fresh client_room)) arrivals)
                into
                gets))
      → env.file_calls (
          target_path env.is_dir env.join here
            (data_info (port_of fsrv.tcp_sock) (server_data fsrv)))
        ≡ all_well
      → let info = data_info (port_of fsrv.tcp_sock) (server_data fsrv) in
        let place = target_path env.is_dir env.join here info in
        let server =
          poll
            (server_session infos n accepts₁ accepts₂
              (port_of fsrv.tcp_sock)
              (server_data fsrv)
              none
              fsrv.client_approval_strategy
              approver)
            (fresh room) in
        ((src : AsyncFileReader) × (clone host.files (server_data fsrv).content ≡ some src)
          × ((poll
                (copy_to_stream 0 (drained (read_many src (reads size readies)).0))
                server.1).1.outbox
              ≡ info_wire infos bytes ++ content))
        × (fetch replies env args ≡ fetched place content)
  srv-fetch host path content sc fsrv st front back their_front their_back home theirs to payload
        peer_port env args approver accepts₁ accepts₂ room client_room bytes size into readies gets
        arrivals serving plain at as_asked ifaces before local their_before their_local sends_to
        meets broadcasts replied fits opens broad goes answers declared no_url ser small all₁ all₂
        enough hs gives reads_all hi got gets_all ordered came closes connects makes =
      let info = data_info (port_of fsrv.tcp_sock) (server_data fsrv) in
      let (reader, opened, built, begun) = main_started replies host path sc fsrv st serving in
      let (p, c, named, read, whole, own, len, encrypted, asks, tui) =
        main-serves replies host (some path) sc fsrv st serving in
      let off : fsrv.encrypted ≡ false = encrypted ∙ ap not plain in
      let (knows, (src, again, copied), session, file) =
        plain-download_to_file infos info_laws n host.files path content reader host.build_env
          (settings sc) fsrv none approver (port_of fsrv.tcp_sock) accepts₁ accepts₂ room
          client_room bytes size into readies gets arrivals at opened
          (ap (build host.build_env) (configured reader sc) ∙ built) off ser small all₁ all₂ enough
          hs gives reads_all hi got gets_all ordered came closes in
      let found =
        find_server_from-srv_builder replies host.build_env reader sc fsrv front back their_front
          their_back home theirs to env.udp payload peer_port reply_laws built as_asked ifaces
          before local their_before their_local sends_to meets replied fits opens broad goes
          answers in
      (
        (src, again, copied.1),
        fetch_connected replies env args _ info content declared
            (fetch_from-found replies env args (v4_addr home.ip (port_of fsrv.tcp_sock)) _ no_url
              (ap (λ o. find_server_from replies o udp_port env.udp (λ server. true)) broadcasts
                ∙ found)
              (connects ∙ ap (λ c. some (some c)) (connection-value _ into gets info none session)))
            makes (_, refl, file),
      )
