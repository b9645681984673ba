-- ===== src/Framing.antt =====
-- encrypted_stream/mod.rs: messages on a stream, each behind its length in two bytes.
pub mod RoundTrip
pub mod Partial
use hubtain.Common.{ℕ, ◌+◌, ◌*◌, ◌/◌, ◌%◌, ◌^◌, List, [], ◌∷◌, length}
use hubtain.Stream.{Fut, IoKind, ready, read_exact, write_all, ◌>>=◌}

-- `u16::to_be_bytes` and `u16::from_be_bytes`.
abbrev pub to_be_bytes : ℕ → List ℕ
to_be_bytes n = (n / 256) ∷ (n % 256) ∷ []

abbrev pub from_be_bytes : List ℕ → ℕ
from_be_bytes (hi ∷ lo ∷ []) = hi * 256 + lo
from_be_bytes _ = 0

-- `MAX_CHUNK_SIZE`
abbrev pub max_chunk_size : ℕ
max_chunk_size = 65535

abbrev io : IoKind → IoKind
io k = k

unfoldable pub recv : Fut IoKind (List ℕ)
recv = do
  msg_len_buf ← read_exact 2 io ready
  let msg_len = from_be_bytes msg_len_buf
  read_exact msg_len io ready

-- `buf.len() as u16` keeps the low 16 bits.
unfoldable pub send : List ℕ → Fut IoKind ℕ
send buf =
    let msg_len_buf = to_be_bytes (length buf % 2 ^ 16) in
    write_all msg_len_buf io (write_all buf io (ready (length msg_len_buf + length buf)))
