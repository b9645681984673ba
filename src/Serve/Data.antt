-- ===== src/Serve/Data.antt =====
-- server/mod.rs: `ServerData`, what `serve` hands to `data_srv`, and the info that a client is sent first.
use hubtain.Common.{ℕ, if◌then◌else◌, Bool, true, false, List, Option}
use hubtain.Models.{DataSrvInfo, DiscoveryReply, Bincode}
use hubtain.Files.{AsyncFileReader}
use hubtain.Server.{FileSrv, SocketAddr, v4_addr, v6_addr}

pub data EncryptionType : Type 0 where
  no_encryption ephemeral : EncryptionType

pub record ServerData : Type 0 where
  pub content : AsyncFileReader
  pub data_length : ℕ
  pub data_name : List ℕ
  pub enctype : EncryptionType

unfoldable pub server_data : FileSrv → ServerData
server_data self = record {
  content = self.content;
  data_length = self.data_length;
  data_name = self.file_name;
  enctype = if self.encrypted then ephemeral else no_encryption;
}

-- `enctype != EncryptionType::None`
abbrev pub is_encrypted : EncryptionType → Bool
is_encrypted no_encryption = false
is_encrypted ephemeral = true

-- The info, with the port of the listener.
unfoldable pub data_info : ℕ → ServerData → DataSrvInfo
data_info port self = record {
  tcp_port = port;
  data_length = self.data_length;
  encrypted = is_encrypted self.enctype;
  data_name = self.data_name;
}

-- `SocketAddr::port`
abbrev pub port_of : SocketAddr → ℕ
port_of (v4_addr ip port) = port
port_of (v6_addr port) = port

-- What `serve` sends back for a ping; `none` is an error of `serialize`.
unfoldable pub ping_reply : Bincode DiscoveryReply → FileSrv → Option (List ℕ)
ping_reply code self =
    code.serialize (record { server_name = self.name; tcp_port = port_of self.tcp_sock })
