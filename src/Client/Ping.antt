-- ===== src/Client/Ping.antt =====
-- client.rs (`find_server`, the socket of the ping).
use hubtain.Common.{ℕ, ◌∷◌, [], List, Bool, ◌&&◌, if◌then◌else◌, Option, none, some}
use hubtain.Addresses.{Ipv4Addr}
use hubtain.Models.{DiscoveryReply, Bincode}
use hubtain.Server.{SocketAddr}
use hubtain.Client.{Datagrams, find_server}

-- Whether the calls on the socket succeed, and what comes back for a ping until the time is up.
pub record Udp : Type 0 where
  pub bind : Bool
  pub set_broadcast : Bool
  pub send_to : Ipv4Addr × ℕ → Bool
  pub replies : Ipv4Addr × ℕ → List ℕ → Datagrams

-- The search ends with an address to connect to, an error, or the panic of `BROADCAST_ADDR`.
pub data Search : Type 0 where
  connects_to : SocketAddr → Search
  search_error search_panics : Search

abbrev pub ping : List ℕ
ping = 0 ∷ []

abbrev pub or_error : Option SocketAddr → Search
or_error none = search_error
or_error (some server) = connects_to server

-- `find_server`, by the broadcast address that the client's host has (`none` is the panic of `unwrap`).
unfoldable pub find_server_from :
    Bincode DiscoveryReply → Option Ipv4Addr → ℕ → Udp → (SocketAddr → Bool) → Search
find_server_from code none udp_port sock strategy = search_panics
find_server_from code (some ip) udp_port sock strategy =
    let broadcast_addr : Ipv4Addr × ℕ = (ip, udp_port) in
    if sock.bind && (sock.set_broadcast && sock.send_to broadcast_addr)
    then or_error (find_server code strategy (sock.replies broadcast_addr ping))
    else search_error
