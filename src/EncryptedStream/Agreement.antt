-- ===== src/EncryptedStream/Agreement.antt =====
-- The two ends of the key exchange on one connection.
pub mod ClientSide
pub mod ServerSide
pub mod Rounds
use hubtain.Common.{ℕ, ◌^◌, ◌<◌, ◌≡◌, List, [], some, length}
use hubtain.EncryptedStream.{Noise, TransportLaws, Keypair}

-- The documented run of the noise pattern XX between a client with the keys `c` and a server with
-- the keys `s`: three messages without payload, each side takes what the other wrote, the server
-- learns the client's public key, and the two transports are peers.
pub record Exchange (n : Noise) (laws : TransportLaws n) (c s : Keypair) : Type 1 where
  pub i₀ : n.Handshake
  pub i₁ : n.Handshake
  pub i₂ : n.Handshake
  pub i₃ : n.Handshake
  pub r₀ : n.Handshake
  pub r₁ : n.Handshake
  pub r₂ : n.Handshake
  pub r₃ : n.Handshake
  pub m₁ : List ℕ
  pub m₂ : List ℕ
  pub m₃ : List ℕ
  pub client_transport : n.Transport
  pub server_transport : n.Transport
  pub initiates : n.build_initiator c.private ≡ some i₀
  pub responds : n.build_responder s.private ≡ some r₀
  pub writes₁ : n.write_message i₀ [] ≡ some (m₁, i₁)
  pub reads₁ : n.read_message r₀ m₁ ≡ some ([], r₁)
  pub writes₂ : n.write_message r₁ [] ≡ some (m₂, r₂)
  pub reads₂ : n.read_message i₁ m₂ ≡ some ([], i₂)
  pub writes₃ : n.write_message i₂ [] ≡ some (m₃, i₃)
  pub reads₃ : n.read_message r₂ m₃ ≡ some ([], r₃)
  pub remote : n.get_remote_static r₃ ≡ some c.public
  pub client_ends : n.into_transport_mode i₃ ≡ some client_transport
  pub server_ends : n.into_transport_mode r₃ ≡ some server_transport
  pub peers : laws.Paired server_transport client_transport
  pub small₁ : length m₁ < 2 ^ 16
  pub small₂ : length m₂ < 2 ^ 16
  pub small₃ : length m₃ < 2 ^ 16
