-- ===== src/Server.antt =====
-- server/mod.rs: the builder of the file server, and the server's configuration. This is the build
-- without `cfg(test)`, on Linux.
pub mod Builder
use hubtain.Common.{◌>>=◌, ℕ, if◌then◌else◌, Bool, false, List, ◌++◌, Option, none, some}
use hubtain.Approval.{ClientApprovalStrategy, interactive, approve_all, codes}
use hubtain.Addresses.{Ipv4Addr, IfAddr, udp_srv_bind_addr}
use hubtain.Files.{FilePath, AsyncFileReader}
use mathlib.Core.Option

pub data HolePuncher : Type 0 where
  no_hole igd ngrok : HolePuncher

-- A socket address: IPv4 with its port, or not.
pub data SocketAddr : Type 0 where
  v4_addr : Ipv4Addr → ℕ → SocketAddr
  v6_addr : ℕ → SocketAddr

-- The sockets are the addresses that they are bound to.
pub record FileSrv : Type 0 where
  pub stay_alive : Bool
  pub udp_sock : Ipv4Addr × ℕ
  pub tcp_sock : SocketAddr
  pub content : AsyncFileReader
  pub data_length : ℕ
  pub name : List ℕ
  pub encrypted : Bool
  pub client_approval_strategy : ClientApprovalStrategy
  pub file_name : List ℕ
  pub holepuncher : HolePuncher

pub record FileSrvBuilder : Type 0 where
  pub content : AsyncFileReader
  pub udp_port : ℕ
  pub stay_alive : Bool
  pub encryption : Bool
  pub listen_addr : List ℕ
  pub client_approval_strategy : ClientApprovalStrategy
  pub file_path : FilePath
  pub holepunch : HolePuncher

abbrev pub default_tcp_listen_addr : List ℕ
default_tcp_listen_addr = codes "0.0.0.0"

unfoldable pub new : AsyncFileReader → FileSrvBuilder
new reader = record {
  content = reader;
  udp_port = 0;
  stay_alive = false;
  encryption = false;
  listen_addr = default_tcp_listen_addr;
  client_approval_strategy = approve_all;
  file_path = reader.orig_path;
  holepunch = no_hole;
}

unfoldable pub set_udp_port : FileSrvBuilder → ℕ → FileSrvBuilder
set_udp_port self port = record self { udp_port = port }

unfoldable pub set_stayalive : FileSrvBuilder → Bool → FileSrvBuilder
set_stayalive self stayalive = record self { stay_alive = stayalive }

unfoldable pub set_holepuncher : FileSrvBuilder → HolePuncher → FileSrvBuilder
set_holepuncher self holepuncher = record self { holepunch = holepuncher }

unfoldable pub set_encryption : FileSrvBuilder → Bool → FileSrvBuilder
set_encryption self encryption =
    let self = record self { encryption = encryption } in
    if encryption then record self { client_approval_strategy = interactive } else self

-- What the system gives to `build`: the TCP listener that a bind gives, the interfaces, whether the UDP bind
-- succeeds, the random name, and of the path whether it is a file, and its file name if that is text.
pub record BuildEnv : Type 0 where
  pub tcp_bind : List ℕ → Option SocketAddr
  pub ifaces : Option (List IfAddr)
  pub udp_bind : Ipv4Addr × ℕ → Option (Ipv4Addr × ℕ)
  pub random_word : List ℕ
  pub is_file : FilePath → Bool
  pub file_name : FilePath → Option (List ℕ)

-- `none` is an error.
unfoldable pub build : BuildEnv → FileSrvBuilder → Option FileSrv
build env self = do
  tcp_sock ← env.tcp_bind (self.listen_addr ++ codes ":0")
  addr ← udp_srv_bind_addr env.ifaces self.udp_port
  udp_sock ← env.udp_bind addr
  file_name ← if env.is_file self.file_path then env.file_name self.file_path else none
  some (record {
    stay_alive = self.stay_alive;
    udp_sock = udp_sock;
    tcp_sock = tcp_sock;
    content = self.content;
    data_length = self.content.file_size;
    name = env.random_word;
    encrypted = self.encryption;
    client_approval_strategy = self.client_approval_strategy;
    file_name = file_name;
    holepuncher = self.holepunch;
  })
