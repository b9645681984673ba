-- ===== src/Client/WholeFile.antt =====
-- From the path on the server to the file on the client: the builder, the reader that `data_srv` clones,
-- its copy to the encrypted stream, the wire, and the client's copy to its file.
use hubtain.Common.{
  ℕ, ◌+◌, ◌*◌, ◌≤◌, ◌<◌, ◌≡◌, refl, sym, ap, ◌∙◌, false, List, [], ◌∷◌, ◌++◌, map, some, length,
  concat, All, arith, length-append,
}
use hubtain.Stream.{Sock}
use hubtain.Framing.{max_chunk_size}
use hubtain.EncryptedStream.{Noise, TransportLaws}
use hubtain.EncryptedStream.Server.{EncryptedWriteStream}
use hubtain.EncryptedStream.Delivery.{
  write_chunks, read_chunks, reader, rooms, chunks, wire_length, Fits,
}
use hubtain.Files.{FileSystem, FilePath, AsyncFileReader, clone, open_reader}
use hubtain.Files.Streams.{read_many}
use hubtain.Files.Copy.{drained, reads, Filled, drained-read_many, open_reader-left}
use hubtain.Server.{FileSrv, BuildEnv, new, build}
use hubtain.Server.Builder.{Setting, configure, build-content}
use hubtain.Serve.Data.{ServerData, server_data, data_info}
use hubtain.Client.{went_well, all_well, done, copy, download_to_file}
use hubtain.Client.Transfer.{closed, transfer-content}

-- Each chunk is read into a buffer of this size.
abbrev into : ℕ → List (List ℕ) → List (List ℕ × ℕ)
into size = map (λ c. (c, size))

module _ (n : Noise) (laws : TransportLaws n) where
  chunks-into : (size : ℕ) (cs : List (List ℕ)) → chunks n laws (into size cs) ≡ cs
  chunks-into size [] = refl
  chunks-into size (c ∷ cs) = ap (◌∷◌ c) (chunks-into size cs)

  rooms-into : (size : ℕ) (cs : List (List ℕ)) → rooms n laws (into size cs) ≡ map (λ c. size) cs
  rooms-into size [] = refl
  rooms-into size (c ∷ cs) = ap (◌∷◌ size) (rooms-into size cs)

  into-Fits :
      (size : ℕ) (cs : List (List ℕ))
      → size + 16 ≤ max_chunk_size
      → All (Filled size) cs
      → All (Fits n laws) (into size cs)
  into-Fits size [] h f = tt
  into-Fits size (c ∷ cs) h (f, fs) = ((omega arith, omega arith), into-Fits size cs h fs)

  into_full :
      (size : ℕ) (cs : List (List ℕ))
      → All (Filled size) cs
      → All (λ j. 0 < length j.0) (into size cs)
  into_full size [] f = tt
  into_full size (c ∷ cs) (f, fs) = (f.0, into_full size cs fs)

  wire_length_bound :
      (size : ℕ) (cs : List (List ℕ))
      → All (Filled size) cs
      → wire_length n laws cs ≤ 19 * length (concat cs)
  wire_length_bound size [] f = omega arith
  wire_length_bound size (c ∷ cs) (f, fs) =
      omega (arith, wire_length_bound size cs fs, length-append c (concat cs))

  -- What a client gets of chunks that the server writes before it closes the stream, as in
  -- `transfer-content`: it reads once more than there are chunks.
  abbrev pub Arrives :
      ℕ
      → EncryptedWriteStream n
      → n.Transport
      → Sock
      → ServerData
      → ℕ
      → List (List ℕ)
      → List ℕ
      → Type 0
  Arrives size ws r sock data_of port cs content =
      (written : EncryptedWriteStream n) × (wire : List ℕ) × (write_chunks n laws ws cs
        ≡ some written)
      × (written.underlying.outbox ≡ ws.underlying.outbox ++ wire)
      × (download_to_file went_well all_well (data_info port data_of) (
            copy
              (read_chunks n laws (reader n laws (closed n laws sock) wire r)
                (map (λ c. size) cs ++ (size ∷ []))).0)
          ≡ done content)

  chunks-Arrives :
      (size : ℕ) (ws : EncryptedWriteStream n) (r : n.Transport) (sock : Sock)
      (data_of : ServerData) (port : ℕ) (cs : List (List ℕ)) (content : List ℕ)
      → size + 16 ≤ max_chunk_size
      → All (Filled size) cs
      → concat cs ≡ content
      → data_of.data_length ≡ length content
      → laws.Paired ws.noise r
      → ws.underlying.broken ≡ false
      → 19 * length content ≤ ws.underlying.room
      → Arrives size ws r sock data_of port cs content
  unfolding data_info
  chunks-Arrives size ws r sock data_of port cs content hs filled e len paired b room =
      let jobs = into size cs in
      let same = chunks-into size cs in
      let bound = wire_length_bound size cs filled in
      let total : length (concat cs) ≡ length content = ap length e in
      let (written, wire, takes, sends, file) =
        transfer-content n laws jobs ws r sock (data_info port data_of) content size paired
          (into-Fits size cs hs filled) (into_full size cs filled) b
          (omega (arith, ap (wire_length n laws) same)) (ap concat same ∙ e) len in
      (
        written,
        wire,
        ap (write_chunks n laws ws) (sym same) ∙ takes,
        sends,
        ap
              (λ (rs : List ℕ). download_to_file went_well all_well (data_info port data_of) (
                copy
                  (read_chunks n laws (reader n laws (closed n laws sock) wire r)
                    (rs ++ (size ∷ []))).0))
              (sym (rooms-into size cs))
            ∙ file,
      )

  -- A server built, with any settings, over the file at a path, and a client that is the peer of its
  -- encrypted stream: the reader that `data_srv` clones for the client, read through a buffer that
  -- leaves room for the 16 bytes of a message's tag, gives chunks that the stream takes; and from the
  -- bytes on the wire, and the end of the stream behind them, the client, told the info of this server,
  -- makes a file with exactly the bytes of the path. The system gives a byte at least on each read, the reads are as many as the bytes,
  -- and the socket has the room for 19 times as many.
  pub serve-download_to_file :
      (fs : FileSystem) (path : FilePath) (content : List ℕ) (file : AsyncFileReader)
      (env : BuildEnv) (ss : List Setting) (srv : FileSrv) (size : ℕ) (readies : List ℕ)
      (ws : EncryptedWriteStream n) (r : n.Transport) (sock : Sock) (port : ℕ)
      → fs path ≡ some content
      → open_reader fs path ≡ some file
      → build env (configure (new file) ss) ≡ some srv
      → 0 < size
      → size + 16 ≤ max_chunk_size
      → All (λ k. 0 < k) readies
      → length content ≤ length readies
      → laws.Paired ws.noise r
      → ws.underlying.broken ≡ false
      → 19 * length content ≤ ws.underlying.room
      → (src : AsyncFileReader) × (clone fs (server_data srv).content ≡ some src)
        × Arrives size ws r sock
            (server_data srv)
            port
            (drained (read_many src (reads size readies)).0)
            content
  unfolding server_data
  serve-download_to_file fs path content file env ss srv size readies ws r sock port at opens builds
        hs fits ready enough paired b room =
      let (whole, again, len) = open_reader-left fs path content file at opens in
      let (same, same_length) = build-content env file ss srv builds in
      let (all, filled) =
        drained-read_many size readies file hs ready (omega (arith, ap length whole)) in
      (
        file,
        ap (clone fs) same ∙ again,
        chunks-Arrives size ws r sock (server_data srv) port _ content fits filled (all ∙ whole)
            (same_length ∙ len) paired b room,
      )
