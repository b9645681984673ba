-- ===== src/EncryptedStream/Partial.antt =====
-- The polls that do not find a whole message at hand, or no room for one. Each poll makes its own
-- future over `recv` or `send` and drops it, with the bytes that it had taken.
use hubtain.Common.{
  ℕ, ◌+◌, ◌^◌, ◌<◌, ◌≡◌, ap, ◌∙◌, true, false, List, [], ◌∷◌, ◌++◌, append-nil, some, length, take,
}
use hubtain.Stream.{value, poll, arrive, await, other}
use hubtain.Stream.Link.{arrival}
use hubtain.Stream.Resume.{await-arrive_all}
use hubtain.Stream.Steps.{poll-write_broken}
use hubtain.Framing.{recv, send, max_chunk_size}
use hubtain.Framing.RoundTrip.{frame, poll-recv}
use hubtain.Framing.Partial.{poll-recv_partial, poll-recv_cut, poll-send_full}
use hubtain.EncryptedStream.{Noise, TransportLaws, poll_ok, poll_err, poll_pending, poll_panic}
use hubtain.EncryptedStream.Client.{EncryptedReadStream, poll_read}
use hubtain.EncryptedStream.Server.{EncryptedWriteStream, poll_write}

-- A poll that finds a proper part of a frame, on an open socket, is pending and has thrown the part
-- away: the stream that is left has an empty inbox. The same `recv`, if it were kept and polled
-- again when the rest of the frame came, would give the message.
pub poll_read_partial :
    (n : Noise) (self : EncryptedReadStream n) (room : ℕ) (m front back : List ℕ)
    → length m < 2 ^ 16
    → front ++ back ≡ frame m
    → 0 < length back
    → self.underlying.inbox ≡ front
    → self.underlying.eof ≡ false
    → (poll_read n self room
        ≡ (poll_pending, record self { underlying = record self.underlying { inbox = [] } }))
      × ((await (poll recv self.underlying) (arrival back ∷ [])).0 ≡ value m)
unfolding poll_read
poll_read_partial n self room m front back small cut more has open_ =
    let (g, waits) = poll-recv_partial m front back self.underlying small cut more has open_ in
    let whole : self.underlying.inbox ++ back ≡ frame m ++ [] = rw (has, append-nil) cut in
    (
      (simp (waits, poll_read)),
      ap (λ r. r.0)
          (await-arrive_all recv self.underlying (arrival back ∷ []) open_ tt
            ∙ poll-recv m [] (arrive self.underlying (arrival back)) small whole),
    )

-- A stream that ends inside a frame reads as one that ends after the last whole frame: `poll_read`
-- gives zero bytes, and no error.
pub poll_read_cut :
    (n : Noise) (self : EncryptedReadStream n) (room : ℕ) (m front back : List ℕ)
    → length m < 2 ^ 16
    → front ++ back ≡ frame m
    → 0 < length back
    → self.underlying.inbox ≡ front
    → self.underlying.eof ≡ true
    → poll_read n self room
      ≡ (poll_ok [], record self { underlying = record self.underlying { inbox = [] } })
unfolding poll_read
poll_read_cut n self room m front back small cut more has closed =
    let ends = poll-recv_cut m front back self.underlying small cut more has closed in
    simp (ends, poll_read)

module _ (n : Noise) (self : EncryptedWriteStream n) (buf : List ℕ) where
  -- On a socket that works but has no room for the frame, `poll_write` is pending, though the
  -- transport has moved on to the next message and the part of the frame that had room is on its
  -- way; the rest is dropped.
  pub poll_write_full :
      (m : List ℕ) (w : n.Transport)
      → n.encrypt self.noise buf ≡ some (m, w)
      → self.underlying.broken ≡ false
      → self.underlying.room < 2 + length m
      → poll_write n self buf ≡ (
        poll_pending,
        record self {
          underlying = record self.underlying {
            outbox = self.underlying.outbox ++ take self.underlying.room (frame m);
            room = 0;
          };
          noise = w;
        },
      )
  unfolding poll_write
  poll_write_full m w e b h =
      let (g, waits) = poll-send_full m self.underlying b h in simp (e, poll_write, waits)

  poll_write_broken :
      (m : List ℕ) (w : n.Transport)
      → n.encrypt self.noise buf ≡ some (m, w)
      → self.underlying.broken ≡ true
      → poll_write n self buf ≡ (poll_err other, record self { noise = w })
  unfolding poll_write
  poll_write_broken m w e b =
      unfold send in (simp (e, poll_write, poll-write_broken _ _ _ self.underlying b))

-- A buffer that does not fit one message makes `poll_write` panic.
poll_write_too_long :
    (n : Noise) (laws : TransportLaws n) (self : EncryptedWriteStream n) (buf : List ℕ)
    → max_chunk_size < length buf + 16
    → (poll_write n self buf).0 ≡ poll_panic
unfolding poll_write
poll_write_too_long n laws self buf h = rw (laws.encrypt_too_long self.noise buf h, poll_write)
