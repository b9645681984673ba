-- ===== src/EncryptedStream.antt =====
-- encrypted_stream/: the errors of the module, and the noise protocol that its streams run on. The
-- protocol is the crate `snow`, and stands here as a parameter.
pub mod Client
pub mod Server
pub mod Delivery
pub mod Partial
pub mod Agreement
pub mod Safety
use hubtain.Common.{ℕ, ◌≡◌, ◌+◌, ◌≤◌, ◌<◌, List, Option, none, some, length}
use hubtain.Framing.{max_chunk_size}
use hubtain.Stream.{Fut, IoKind, ready, fail, Poll, value, error, panic, pending}

pub data EncStreamErr : Type 0 where
  client_not_accepted bincode_err other_err snow_err : EncStreamErr
  io_err : IoKind → EncStreamErr

pub record Keypair : Type 0 where
  pub public : List ℕ
  pub private : List ℕ

-- The calls of `snow` that the program makes. A message is written into a buffer of `MAX_CHUNK_SIZE`
-- bytes; what a transport decrypts goes into a buffer of the given length.
pub record Noise : Type 1 where
  pub Handshake : Type 0
  pub Transport : Type 0
  pub build_initiator : List ℕ → Option Handshake
  pub build_responder : List ℕ → Option Handshake
  pub write_message : Handshake → List ℕ → Option (List ℕ × Handshake)
  pub read_message : Handshake → List ℕ → Option (List ℕ × Handshake)
  pub get_remote_static : Handshake → Option (List ℕ)
  pub into_transport_mode : Handshake → Option Transport
  pub encrypt : Transport → List ℕ → Option (List ℕ × Transport)
  pub decrypt : Transport → List ℕ → ℕ → Option (List ℕ) × Transport

-- The documented behaviour of a transport pair: a message is 16 bytes longer than what it carries
-- and at most 65535 bytes long, and the peer reads messages back in the order in which they were
-- written, into a buffer that is long enough.
pub record TransportLaws (n : Noise) : Type 1 where
  pub Paired : n.Transport → n.Transport → Type 0
  pub encrypt_fits :
      (w : n.Transport) (p : List ℕ)
      → length p + 16 ≤ max_chunk_size
      → (m : List ℕ) × (w' : n.Transport) × (n.encrypt w p ≡ some (m, w'))
        × (length m ≡ length p + 16)
  pub encrypt_too_long :
      (w : n.Transport) (p : List ℕ) → max_chunk_size < length p + 16 → n.encrypt w p ≡ none
  pub decrypt-encrypt :
      (w r : n.Transport) (p m : List ℕ) (w' : n.Transport) (room : ℕ)
      → Paired w r
      → n.encrypt w p ≡ some (m, w')
      → length p ≤ room
      → (r' : n.Transport) × (n.decrypt r m room ≡ (some p, r')) × Paired w' r'

-- What a poll of a stream hands back. The future behind a poll that is not ready is gone.
pub data PollResult (A : Type 0) : Type 0 where
  poll_ok : A → PollResult A
  poll_err : IoKind → PollResult A
  poll_pending : PollResult A
  poll_panic : PollResult A

-- `fut.poll_unpin(cx)` on a future that lives only for this call.
abbrev pub poll_once : {A : Type 0} → Poll IoKind A → PollResult A
poll_once (value a) = poll_ok a
poll_once (error e) = poll_err e
poll_once panic = poll_panic
poll_once (pending f) = poll_pending

-- `?` on a result of `snow`.
abbrev pub snow : {A : Type 0} → Option A → Fut EncStreamErr A
snow (some a) = ready a
snow none = fail snow_err
