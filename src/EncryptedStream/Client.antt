-- ===== src/EncryptedStream/Client.antt =====
-- encrypted_stream/client.rs: the client's end of the key exchange and the stream that decrypts.
use hubtain.Common.{ℕ, ◌==◌, if◌then◌else◌, List, [], ◌∷◌, Option, none, some}
use hubtain.Stream.{
  Fut, ready, fail, read_exact, map_err, ◌>>=◌, Sock, value, error, panic, pending, poll,
  unexpected_eof, other,
}
use hubtain.Framing.{recv, send}
use hubtain.EncryptedStream.{
  Noise, Keypair, EncStreamErr, io_err, client_not_accepted, snow, PollResult, poll_ok, poll_err,
  poll_pending, poll_panic,
}

-- `buff[0] != 1`
abbrev pub first_byte : List ℕ → ℕ
first_byte [] = 0
first_byte (b ∷ bs) = b

module _ (n : Noise) where
  open n use {
    Handshake, Transport, build_initiator, write_message, read_message, into_transport_mode,
    decrypt,
  }

  -- `underlying` is the socket that the stream borrows.
  pub record EncryptedReadStream : Type 0 where
    pub underlying : Sock
    pub noise : Transport

  -- `key` is what `generate_keypair` gave. The future ends in the transport state, which
  -- `EncryptedReadStream::new` puts beside the socket.
  unfoldable pub key_exchange : Option Keypair → Fut EncStreamErr Transport
  key_exchange generated = do
    key ← snow generated
    noise ← snow (build_initiator key.private)
    (e, noise) ← snow (write_message noise [])
    sent ← map_err io_err (send e)
    msg ← map_err io_err recv
    (payload, noise) ← snow (read_message noise msg)
    (s, noise) ← snow (write_message noise [])
    sent ← map_err io_err (send s)
    buff ← read_exact 1 io_err ready
    if first_byte buff == 1 then snow (into_transport_mode noise) else fail client_not_accepted

  -- `Ok(written)` is here the bytes that were written into `buf`, whose length is `room`.
  unfoldable pub poll_read : EncryptedReadStream → ℕ → PollResult (List ℕ) × EncryptedReadStream
  poll_read self room =
      let (r, sock) = poll recv self.underlying in
      let moved = record self { underlying = sock } in
      elim r [
        | value msg ↦
            let (opened, noise) = decrypt self.noise msg room in
            elim opened [
              | some plain ↦ (poll_ok plain, record moved { noise = noise })
              | none ↦ (poll_err other, record moved { noise = noise })
            ]
        | error e ↦ elim e [ unexpected_eof ↦ (poll_ok [], moved) | _ ↦ (poll_panic, moved) ]
        | panic ↦ (poll_panic, moved)
        | pending f ↦ (poll_pending, moved)
      ]
