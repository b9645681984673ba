-- ===== src/Client/Transfer.antt =====
-- A whole file on its way: through the server's encrypted stream, the wire, the client's stream and the
-- client's file.
use hubtain.Common.{
  ℕ, ◌^◌, replicate, ◌≤◌, ◌<◌, ◌≡◌, refl, sym, ap, ◌∙◌, true, false, List, [], ◌∷◌, ◌++◌, map,
  append-nil, some, length, concat, All, arith,
}
use hubtain.Stream.{Sock}
use hubtain.Framing.RoundTrip.{frame}
use hubtain.Models.{DataSrvInfo}
use hubtain.EncryptedStream.{Noise, TransportLaws, poll_ok}
use hubtain.EncryptedStream.Client.{poll_read}
use hubtain.EncryptedStream.Partial.{poll_read_cut}
use hubtain.EncryptedStream.Server.{EncryptedWriteStream}
use hubtain.EncryptedStream.Delivery.{
  write_chunks, read_chunks, reader, rooms, chunks, wire_length, Fits, read_chunks-snoc,
  write_chunks-Delivered,
}
use hubtain.Client.{Copied, went_well, all_well, done, copy, download_to_file}
use hubtain.Client.Download.{download_filled}

module _ (n : Noise) (laws : TransportLaws n) where
  -- The chunks and the read of no bytes behind them.
  copied_chunks :
      (jobs : List (List ℕ × ℕ))
      → All (λ j. 0 < length j.0) jobs
      → copy (map (λ j. poll_ok j.0) jobs ++ (poll_ok [] ∷ []))
        ≡ record { chunks = chunks n laws jobs; ends = went_well }
  copied_chunks [] h = refl
  copied_chunks (([], room) ∷ jobs) h = absurd (omega (arith, h.0))
  copied_chunks ((b ∷ bs, room) ∷ jobs) h =
      ap (λ (c : Copied). record { chunks = (b ∷ bs) ∷ c.chunks; ends = c.ends })
        (copied_chunks jobs h.1)

  -- The socket of a stream that the peer has closed.
  abbrev pub closed : Sock → Sock
  closed sock = record sock { eof = true }

  -- The info announces the length of a content, of which the server has sent a first part, cut into
  -- chunks, none empty and each short enough for a message and for the client's buffer, on a socket with
  -- the room for it, before the connection broke off inside a further message of less than 2 ^ 16
  -- bytes, or behind the chunks. The server's stream takes all chunks; and a client whose transport is
  -- the server's peer, and that has the bytes which the server put on the wire in its inbox, with what
  -- came of the further message, on a stream that has ended, succeeds all the same, if the calls on its
  -- file do: with a file of the announced length that holds the chunks and zeros for the rest.
  pub transfer-broken_off :
      (jobs : List (List ℕ × ℕ)) (ws : EncryptedWriteStream n) (r : n.Transport) (sock : Sock)
      (info : DataSrvInfo) (content rest : List ℕ) (m front back : List ℕ) (size : ℕ)
      → laws.Paired ws.noise r
      → All (Fits n laws) jobs
      → All (λ j. 0 < length j.0) jobs
      → ws.underlying.broken ≡ false
      → wire_length n laws (chunks n laws jobs) ≤ ws.underlying.room
      → concat (chunks n laws jobs) ++ rest ≡ content
      → info.data_length ≡ length content
      → length m < 2 ^ 16
      → front ++ back ≡ frame m
      → 0 < length back
      → (written : EncryptedWriteStream n) × (wire : List ℕ) × (write_chunks n laws ws
            (chunks n laws jobs)
          ≡ some written)
        × (written.underlying.outbox ≡ ws.underlying.outbox ++ wire)
        × (download_to_file went_well all_well info (
              copy
                (read_chunks n laws
                  (reader n laws (closed sock) (wire ++ front) r)
                  (rooms n laws jobs ++ (size ∷ []))).0)
            ≡ done (concat (chunks n laws jobs) ++ replicate (length rest) 0))
  transfer-broken_off jobs ws r sock info content rest m front back size paired fits full b h e len
        small cut more =
      let d = write_chunks-Delivered n laws jobs ws r paired fits b h in
      let rs = reader n laws (closed sock) (d.wire ++ front) r in
      let got : (read_chunks n laws rs (rooms n laws jobs ++ (size ∷ []))).0
          ≡ map (λ j. poll_ok j.0) jobs ++ (poll_ok [] ∷ []) =
        read_chunks-snoc n laws rs (rooms n laws jobs) size
        ∙ ap (λ p. p.0 ++ ((poll_read n p.1 size).0 ∷ [])) (d.reads (closed sock) front)
        ∙ ap (λ p. map (λ j. poll_ok j.0) jobs ++ (p.0 ∷ []))
            (poll_read_cut n (reader n laws (closed sock) front d.peer) size m front back small cut
              more refl refl) in
      (
        d.written,
        d.wire,
        d.takes,
        d.sends,
        ap (λ rs. download_to_file went_well all_well info (copy rs)) got
            ∙ ap (download_to_file went_well all_well info) (copied_chunks jobs full)
            ∙ download_filled info (chunks n laws jobs) went_well content rest tt e len,
      )

  -- A content that was sent whole, on a stream that has ended behind it.
  pub transfer-content :
      (jobs : List (List ℕ × ℕ)) (ws : EncryptedWriteStream n) (r : n.Transport) (sock : Sock)
      (info : DataSrvInfo) (content : List ℕ) (size : ℕ)
      → laws.Paired ws.noise r
      → All (Fits n laws) jobs
      → All (λ j. 0 < length j.0) jobs
      → ws.underlying.broken ≡ false
      → wire_length n laws (chunks n laws jobs) ≤ ws.underlying.room
      → concat (chunks n laws jobs) ≡ content
      → info.data_length ≡ length content
      → (written : EncryptedWriteStream n) × (wire : List ℕ) × (write_chunks n laws ws
            (chunks n laws jobs)
          ≡ some written)
        × (written.underlying.outbox ≡ ws.underlying.outbox ++ wire)
        × (download_to_file went_well all_well info (
              copy
                (read_chunks n laws
                  (reader n laws (closed sock) wire r)
                  (rooms n laws jobs ++ (size ∷ []))).0)
            ≡ done content)
  transfer-content jobs ws r sock info content size paired fits full b h e len =
      let (written, wire, takes, sends, file) =
        transfer-broken_off jobs ws r sock info content [] [] [] (frame []) size paired fits full b
          h (append-nil _ ∙ e) len (omega arith) refl (omega arith) in
      (
        written,
        wire,
        takes,
        sends,
        ap
              (λ (bs : List ℕ). download_to_file went_well all_well info (
                copy
                  (read_chunks n laws (reader n laws (closed sock) bs r)
                    (rooms n laws jobs ++ (size ∷ []))).0))
              (sym (append-nil wire))
            ∙ file
            ∙ ap done (append-nil _ ∙ e),
      )
