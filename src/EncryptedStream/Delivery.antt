-- ===== src/EncryptedStream/Delivery.antt =====
-- What one end writes, the other end reads: the two streams over a noise transport.
use hubtain.Common.{
  ℕ, ◌+◌, ◌-◌, ◌^◌, ◌≤◌, ◌<◌, ◌≡◌, refl, sym, ap, ◌∙◌, false, List, [], ◌∷◌, ◌++◌, append_assoc,
  append-nil, Option, none, some, arith, length, length-append, All, map,
}
use hubtain.Stream.{Sock}
use hubtain.Framing.{max_chunk_size}
use hubtain.Framing.RoundTrip.{frame, poll-send, poll-recv}
use hubtain.EncryptedStream.{
  Noise, TransportLaws, PollResult, poll_ok, poll_err, poll_pending, poll_panic,
}
use hubtain.EncryptedStream.Client.{EncryptedReadStream, poll_read}
use hubtain.EncryptedStream.Server.{EncryptedWriteStream, poll_write}

module _ (n : Noise) (laws : TransportLaws n) where
  open laws use {Paired, encrypt_fits, encrypt_too_long, decrypt-encrypt}

  -- A write of a buffer that fits one message puts one frame on the wire.
  poll_write-frame :
      (self : EncryptedWriteStream n) (buf m : List ℕ) (w : n.Transport)
      → n.encrypt self.noise buf ≡ some (m, w)
      → self.underlying.broken ≡ false
      → 2 + length m ≤ self.underlying.room
      → poll_write n self buf ≡ (
        poll_ok (2 + length m),
        record self {
          underlying = record self.underlying {
            outbox = self.underlying.outbox ++ frame m;
            room = self.underlying.room - (2 + length m);
          };
          noise = w;
        },
      )
  unfolding poll_write
  poll_write-frame self buf m w e b h = rw (e, poll_write, poll-send m self.underlying b h)

  -- A read with the whole frame at hand.
  poll_read-frame :
      (self : EncryptedReadStream n) (m p rest : List ℕ) (room : ℕ) (r : n.Transport)
      → n.decrypt self.noise m room ≡ (some p, r)
      → length m < 2 ^ 16
      → self.underlying.inbox ≡ frame m ++ rest
      → poll_read n self room ≡ (
        poll_ok p,
        record self { underlying = record self.underlying { inbox = rest }; noise = r },
      )
  unfolding poll_read
  poll_read-frame self m p rest room r e h b =
      simp (poll-recv m rest self.underlying h b, poll_read, e)

  -- The stream that hands each chunk to `poll_write`, in order; `none` if one is not taken.
  pub write_chunks : EncryptedWriteStream n → List (List ℕ) → Option (EncryptedWriteStream n)
  write_chunks self [] = some self
  write_chunks self (c ∷ cs) =
      let (r, self) = poll_write n self c in
      elim r [
        | poll_ok k ↦ write_chunks self cs
        | poll_err e ↦ none
        | poll_pending ↦ none
        | poll_panic ↦ none
      ]

  -- The results of a `poll_read` into each buffer length, in order.
  pub read_chunks :
      EncryptedReadStream n → List ℕ → List (PollResult (List ℕ)) × EncryptedReadStream n
  read_chunks self [] = ([], self)
  read_chunks self (room ∷ rooms) =
      let (r, self) = poll_read n self room in
      let (rs, self) = read_chunks self rooms in (r ∷ rs, self)

  -- One read more.
  pub read_chunks-snoc :
      (rs : EncryptedReadStream n) (sizes : List ℕ) (size : ℕ)
      → (read_chunks rs (sizes ++ (size ∷ []))).0
        ≡ (read_chunks rs sizes).0 ++ ((poll_read n (read_chunks rs sizes).1 size).0 ∷ [])
  unfolding read_chunks
  read_chunks-snoc rs [] size = refl
  read_chunks-snoc rs (s ∷ sizes) size =
      ap (◌∷◌ (poll_read n rs s).0) (read_chunks-snoc (poll_read n rs s).1 sizes size)

  -- A chunk with the length of the buffer that it is read into.
  abbrev pub Fits : List ℕ × ℕ → Type 0
  Fits (chunk, room) = (length chunk + 16 ≤ max_chunk_size) × (length chunk ≤ room)

  -- The bytes that a chunk takes on the wire.
  abbrev pub wire_length : List (List ℕ) → ℕ
  wire_length [] = 0
  wire_length (c ∷ cs) = 18 + length c + wire_length cs

  abbrev pub chunks : List (List ℕ × ℕ) → List (List ℕ)
  chunks = map (λ j. j.0)

  abbrev pub rooms : List (List ℕ × ℕ) → List ℕ
  rooms = map (λ j. j.1)

  write_chunks_step :
      (ws ws₁ : EncryptedWriteStream n) (c : List ℕ) (cs : List (List ℕ)) (k : ℕ)
      → poll_write n ws c ≡ (poll_ok k, ws₁)
      → write_chunks ws (c ∷ cs) ≡ write_chunks ws₁ cs
  unfolding write_chunks
  write_chunks_step ws ws₁ c cs k e = rw (e, write_chunks) (ap (λ p. write_chunks p.1 cs) e)

  read_chunks_step :
      (rs rs₁ rs' : EncryptedReadStream n) (room : ℕ) (sizes : List ℕ) (r : PollResult (List ℕ))
      (results : List (PollResult (List ℕ)))
      → poll_read n rs room ≡ (r, rs₁)
      → read_chunks rs₁ sizes ≡ (results, rs')
      → read_chunks rs (room ∷ sizes) ≡ (r ∷ results, rs')
  unfolding read_chunks
  read_chunks_step rs rs₁ rs' room sizes r results e es = simp (e, es)

  -- A reader in the state `r` with these bytes in its inbox.
  abbrev pub reader : Sock → List ℕ → n.Transport → EncryptedReadStream n
  reader sock bytes r = record { underlying = record sock { inbox = bytes }; noise = r }

  -- The writer takes all chunks and puts `wire` behind what it had sent; a reader in the state `r`
  -- with `wire` in its inbox gets the same chunks in the same order, leaves what follows, and ends
  -- as the peer of the writer.
  pub record Delivered (jobs : List (List ℕ × ℕ)) (ws : EncryptedWriteStream n) (r : n.Transport)
      : Type 0 where
    pub written : EncryptedWriteStream n
    pub wire : List ℕ
    pub peer : n.Transport
    pub takes : write_chunks ws (chunks jobs) ≡ some written
    pub sends : written.underlying.outbox ≡ ws.underlying.outbox ++ wire
    pub length_wire : length wire ≡ wire_length (chunks jobs)
    pub reads :
        (sock : Sock) (rest : List ℕ)
        → read_chunks (reader sock (wire ++ rest) r) (rooms jobs)
          ≡ (map (λ j. poll_ok j.0) jobs, reader sock rest peer)
    pub paired : Paired written.noise peer

  -- The writer after one chunk, whose message is `m`.
  abbrev after : EncryptedWriteStream n → List ℕ → n.Transport → EncryptedWriteStream n
  after ws m w = record ws {
    underlying = record ws.underlying {
      outbox = ws.underlying.outbox ++ frame m;
      room = ws.underlying.room - (2 + length m);
    };
    noise = w;
  }

  deliver_step :
      (c m : List ℕ) (room : ℕ) (jobs : List (List ℕ × ℕ)) (ws : EncryptedWriteStream n)
      (r₀ w r : n.Transport)
      → n.encrypt ws.noise c ≡ some (m, w)
      → n.decrypt r₀ m room ≡ (some c, r)
      → length m ≡ length c + 16
      → length m < 2 ^ 16
      → ws.underlying.broken ≡ false
      → 2 + length m ≤ ws.underlying.room
      → Delivered jobs (after ws m w) r
      → Delivered ((c, room) ∷ jobs) ws r₀
  deliver_step c m room jobs ws r₀ w r enc dec len small b h d = record {
    written = d.written;
    wire = frame m ++ d.wire;
    takes =
        write_chunks_step ws (after ws m w) c (chunks jobs) _ (poll_write-frame ws c m w enc b h)
        ∙ d.takes;
    sends = d.sends ∙ append_assoc ws.underlying.outbox (frame m) d.wire;
    length_wire = omega (arith, d.length_wire, length-append (frame m) d.wire);
    peer = d.peer;
    reads = reads_next;
    paired = d.paired;
  }
    where
      reads_next :
          (sock : Sock) (rest : List ℕ)
          → read_chunks (reader sock ((frame m ++ d.wire) ++ rest) r₀) (room ∷ rooms jobs)
            ≡ (map (λ j. poll_ok j.0) ((c, room) ∷ jobs), reader sock rest d.peer)
      reads_next sock rest =
          let rs : EncryptedReadStream n = reader sock ((frame m ++ d.wire) ++ rest) r₀ in
          let got : poll_read n rs room ≡ (poll_ok c, reader sock (d.wire ++ rest) r) =
            poll_read-frame rs m c (d.wire ++ rest) room r dec small
              (append_assoc (frame m) d.wire rest) in
          read_chunks_step rs (reader sock (d.wire ++ rest) r) (reader sock rest d.peer) room
            (rooms jobs) _ _ got (d.reads sock rest)

  -- For every list of chunks that fit a message and the reader's buffers, on a socket with the room
  -- for them, and for a reader whose transport is the writer's peer: the writer takes all chunks,
  -- each takes 18 bytes more than its length on the wire, and a reader with these bytes in its inbox
  -- gets the same chunks in the same order, leaves what follows, and ends as the writer's peer.
  pub write_chunks-Delivered :
      (jobs : List (List ℕ × ℕ)) (ws : EncryptedWriteStream n) (r : n.Transport)
      → Paired ws.noise r
      → All Fits jobs
      → ws.underlying.broken ≡ false
      → wire_length (chunks jobs) ≤ ws.underlying.room
      → Delivered jobs ws r
  write_chunks-Delivered [] ws r paired fits b h = record {
    written = ws;
    wire = [];
    takes = unfold write_chunks in refl;
    sends = sym (append-nil _);
    length_wire = refl;
    peer = r;
    reads = λ sock rest. (unfold read_chunks in refl);
    paired = paired;
  }
  write_chunks-Delivered ((c, room) ∷ jobs) ws r₀ paired (fit, fits) b h =
      let (m, w, enc, len) = encrypt_fits ws.noise c fit.0 in
      let (r, dec, paired') = decrypt-encrypt ws.noise r₀ c m w room paired enc fit.1 in
      deliver_step c m room jobs ws r₀ w r enc dec len (omega arith) b (omega arith)
        (write_chunks-Delivered jobs (after ws m w) r paired' fits b (omega arith))
