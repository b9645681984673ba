-- ===== src/Models.antt =====
-- models.rs: what the server tells a client, and how it crosses the stream. The encoding is the crate
-- `bincode`, and stands here as a parameter.
pub mod Info
use hubtain.Common.{ℕ, ◌≡◌, ◌++◌, ◌%◌, Bool, List, [], ◌∷◌, Option, none, some, length, take}
use hubtain.Stream.{Fut, IoKind, ready, fail, read_exact, ◌>>=◌}
use mathlib.Core.Option

pub record DataSrvInfo : Type 0 where
  pub tcp_port : ℕ
  pub data_length : ℕ
  pub encrypted : Bool
  pub data_name : List ℕ

pub record DiscoveryReply : Type 0 where
  pub server_name : List ℕ
  pub tcp_port : ℕ

-- `bincode::serialize` and `bincode::deserialize` at a type; `none` is an error.
pub record Bincode (A : Type 0) : Type 0 where
  pub serialize : A → Option (List ℕ)
  pub deserialize : List ℕ → Option A

-- Documented: what was serialized reads back, and bytes behind it are ignored.
pub record BincodeLaws {A : Type 0} (code : Bincode A) : Type 0 where
  pub deserialize-serialize :
      (a : A) (bytes extra : List ℕ)
      → code.serialize a ≡ some bytes
      → code.deserialize (bytes ++ extra) ≡ some a

pub data InfoErr : Type 0 where
  io_error : IoKind → InfoErr
  bad_encoding : InfoErr

-- What `write_to_stream` puts on the stream: each `write` takes as many bytes as the stream accepts,
-- the first two arguments. `serialized.len() as u8` keeps the low 8 bits.
unfoldable pub write_to_stream : ℕ → ℕ → Bincode DataSrvInfo → DataSrvInfo → Option (List ℕ)
write_to_stream accepts₁ accepts₂ code self =
    Option.map
      (λ serialized. take accepts₁ ((length serialized % 256) ∷ []) ++ take accepts₂ serialized)
      (code.serialize self)

abbrev pub decoded : {A : Type 0} → Option A → Fut InfoErr A
decoded (some a) = ready a
decoded none = fail bad_encoding

-- `len_byte[0]`
abbrev pub length_byte : List ℕ → ℕ
length_byte [] = 0
length_byte (b ∷ bs) = b

pub read_from_stream : Bincode DataSrvInfo → Fut InfoErr DataSrvInfo
read_from_stream code = do
  len_byte ← read_exact 1 io_error ready
  datbuf ← read_exact (length_byte len_byte) io_error ready
  decoded (code.deserialize datbuf)
