-- ===== src/Cli/Meets.antt =====
-- `hubtain srv` and `hubtain fetch` on one network: the ping of the client and the reply of the server.
use hubtain.Common.{
  ℕ, ◌≤◌, ◌≡◌, sym, ap, ◌∙◌, true, List, [], ◌∷◌, ◌++◌, Option, some, All, length, arith,
}
use hubtain.Addresses.{Ipv4Addr, Ifv4Addr, IfAddr, v4, select_broadcast_addr, udp_srv_bind_addr}
use hubtain.Addresses.Choice.{IsLocal, binds, broadcasts}
use hubtain.Models.{DiscoveryReply, Bincode, BincodeLaws}
use hubtain.Files.{AsyncFileReader}
use hubtain.Server.{
  FileSrv, FileSrvBuilder, BuildEnv, v4_addr, new, set_udp_port, set_stayalive, set_encryption,
  set_holepuncher, build,
}
use hubtain.Serve.Data.{port_of, ping_reply}
use hubtain.Client.{reply_buffer}
use hubtain.Client.Ping.{Udp, connects_to, ping, find_server_from}
use hubtain.Client.Discovery.{Replied}
use hubtain.Cli.{SrvFlags, srv_builder, udp_port}
use hubtain.Cli.Fetch.{find_server_from-first}

-- Where the server's UDP socket is.
build_udp :
    (env : BuildEnv) (b : FileSrvBuilder) (srv : FileSrv) (at : Ipv4Addr × ℕ)
    → udp_srv_bind_addr env.ifaces b.udp_port ≡ some at
    → build env b ≡ some srv
    → env.udp_bind at ≡ some srv.udp_sock
unfolding build
build_udp env b srv at is e = ground arith

-- The port that the command line sets stays.
srv_port : (reader : AsyncFileReader) (sc : SrvFlags) → (srv_builder reader sc).udp_port ≡ udp_port
unfolding srv_builder new set_udp_port set_stayalive set_encryption set_holepuncher
srv_port reader sc = ground arith

-- A server that `srv` builds, with any flags, on a host whose first local interface is `home`, and a
-- client that `fetch` starts on a host whose first local interface has the broadcast address `to`: if
-- `to` is the address of `home` with 255 as its last octet, the UDP socket of the server is bound where
-- it asked to be, its reply fits the client's buffer, the calls on the client's socket succeed, and a
-- ping to the server's socket brings this reply alone, from the address of `home`; then the client
-- connects to that address, at the TCP port on which the server accepts.
pub find_server_from-srv_builder :
    (code : Bincode DiscoveryReply) (env : BuildEnv) (reader : AsyncFileReader) (sc : SrvFlags)
    (srv : FileSrv) (front back their_front their_back : List IfAddr) (home theirs : Ifv4Addr)
    (to : Ipv4Addr) (sock : Udp) (payload : List ℕ) (peer_port : ℕ)
    → BincodeLaws code
    → build env (srv_builder reader sc) ≡ some srv
    → ((at bound : Ipv4Addr × ℕ) → env.udp_bind at ≡ some bound → bound ≡ at)
    → env.ifaces ≡ some (front ++ (v4 home ∷ back))
    → All (λ x. ¬ IsLocal x) front
    → IsLocal (v4 home)
    → All (λ x. ¬ IsLocal x) their_front
    → IsLocal (v4 theirs)
    → theirs.broadcast ≡ some to
    → to ≡ record home.ip { d = 255 }
    → ping_reply code srv ≡ some payload
    → length payload ≤ reply_buffer
    → sock.bind ≡ true
    → sock.set_broadcast ≡ true
    → ((at : Ipv4Addr × ℕ) → sock.send_to at ≡ true)
    → sock.replies srv.udp_sock ping ≡ some (payload, v4_addr home.ip peer_port) ∷ []
    → find_server_from code
        (select_broadcast_addr (some (their_front ++ (v4 theirs ∷ their_back))))
        udp_port
        sock
        (λ server. true)
      ≡ connects_to (v4_addr home.ip (port_of srv.tcp_sock))
find_server_from-srv_builder code env reader sc srv front back their_front their_back home theirs to
      sock payload peer_port laws built as_asked ifaces before local their_before their_local
      sends_to meets replied fits opens broad goes answers =
    let at : Ipv4Addr × ℕ = (record home.ip { d = 255 }, udp_port) in
    let bound : srv.udp_sock ≡ at = as_asked at srv.udp_sock (
      build_udp env (srv_builder reader sc) srv at
        (ap (udp_srv_bind_addr env.ifaces) (srv_port reader sc)
          ∙ ap (λ i. udp_srv_bind_addr i udp_port) ifaces
          ∙ binds front back home udp_port before local)
        built) in
    let reached : sock.replies (to, udp_port) ping
        ≡ some (payload, v4_addr home.ip peer_port) ∷ [] =
      ap (λ (a : Ipv4Addr × ℕ). sock.replies a ping)
        (sym (bound ∙ ap (λ ip. (ip, udp_port)) (sym meets)))
      ∙ answers in
    let server : Replied code = record {
      reply = record { server_name = srv.name; tcp_port = port_of srv.tcp_sock };
      payload = payload;
      peer = v4_addr home.ip peer_port;
      encodes = unfold ping_reply in replied;
      fits = fits;
    } in
    let ask = λ (o : Option Ipv4Addr). find_server_from code o udp_port sock (λ server. true) in
    ap ask (broadcasts their_front their_back theirs udp_port their_before their_local to sends_to)
    ∙ find_server_from-first code laws sock to udp_port server [] opens broad (goes (to, udp_port))
        reached
