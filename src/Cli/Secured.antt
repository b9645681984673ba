-- ===== src/Cli/Secured.antt =====
-- A client on a server that encrypts, up to the copy at both ends: server/mod.rs (the task of a client in
-- `data_srv`) and client.rs (`download_to_file`), on the streams that the key exchange leaves.
use hubtain.Common.{
  ◌>>=◌, ℕ, suc, Bool, false, ◌+◌, ◌*◌, ◌≤◌, ◌<◌, ◌≡◌, refl, ap, ◌∙◌, true, List, [], ◌∷◌, ◌++◌,
  map, Option, none, some, All, arith, length, drop, drop-append_length,
}
use hubtain.Stream.{Sock, Poll, value, error, panic, pending}
use hubtain.Stream.Link.{Link, rounds, start}
use hubtain.Framing.{max_chunk_size}
use hubtain.Approval.{ClientApprovalStrategy, interactive, ClientApprover}
use hubtain.Models.{DataSrvInfo, Bincode, BincodeLaws}
use hubtain.EncryptedStream.{Noise, TransportLaws, Keypair}
use hubtain.EncryptedStream.Server.{EncryptedWriteStream}
use hubtain.EncryptedStream.Agreement.{Exchange}
use hubtain.EncryptedStream.Delivery.{write_chunks, read_chunks, reader}
use hubtain.Files.{FileSystem, FilePath, AsyncFileReader, clone, open_reader}
use hubtain.Files.Streams.{read_many}
use hubtain.Files.Copy.{drained, reads}
use hubtain.Server.{FileSrv, BuildEnv, new, build}
use hubtain.Server.Builder.{Setting, configure}
use hubtain.Serve.Data.{ServerData, server_data, data_info, port_of}
use hubtain.Client.{went_well, all_well, done, copy, download_to_file}
use hubtain.Client.Transfer.{closed}
use hubtain.Session.{SessionErr, client_session, server_session, TaskEnd, copies, task_end}
use hubtain.Session.Rounds.{approved_socket}
use hubtain.Session.Download.{is_ephemeral, session-download_to_file}
use hubtain.Cli.Fetch.{Session, told, Brings}
use hubtain.Cli.EndToEnd.{connection}

same_rooms :
    (size : ℕ) (gets : List ℕ) (cs : List (List ℕ))
    → length gets ≡ suc (length cs)
    → map (λ g. size) gets ≡ map (λ c. size) cs ++ (size ∷ [])
same_rooms size [] cs e = absurd (omega (arith, e))
same_rooms size (g ∷ []) [] e = refl
same_rooms size (g ∷ h ∷ gs) [] e = absurd (omega (arith, e))
same_rooms size (g ∷ gs) (c ∷ cs) e = ap (◌∷◌ size) (same_rooms size gs cs (omega (arith, e)))

module _ (n : Noise) (laws : TransportLaws n) where
  open n use {Transport}

  -- The server's task at its copy, with the stream that the key exchange has made of its socket.
  abbrev pub encrypted_copy :
      FileSystem
      → ServerData
      → ℕ
      → List ℕ
      → TaskEnd (Option (Transport × List ℕ))
      → Sock
      → Option (EncryptedWriteStream n)
  encrypted_copy fs self size readies (copies (some (t, key))) s = do
    src ← clone fs self.content
    write_chunks n laws (record { underlying = s; noise = t; their_pubkey = key })
        (drained (read_many src (reads size readies)).0)
  encrypted_copy fs self size readies ending s = none

  -- What of it is new to a client that has got so many bytes.
  abbrev pub sent_since : ℕ → Option (EncryptedWriteStream n) → List ℕ
  sent_since got none = []
  sent_since got (some written) = drop got written.underlying.outbox

  -- Behind a copy that has taken all, the server drops the stream, which closes it.
  abbrev pub has_closed : Option (EncryptedWriteStream n) → Bool
  has_closed none = false
  has_closed (some written) = true

  -- The client's connection as `fetch` sees it, once these bytes have come behind its session, and the
  -- end of the stream or not: on an encrypted stream the copy reads messages, and on any other the bytes.
  abbrev pub encrypted_connection :
      Poll SessionErr (DataSrvInfo × Option Transport) × Sock → List ℕ → Bool → ℕ → List ℕ → Session
  encrypted_connection (value (info, some t), s) came closes size gets = told info went_well (
      copy
        (read_chunks n laws (reader n laws (record s { eof = closes }) (s.inbox ++ came) t)
          (map (λ g. size) gets)).0)
  encrypted_connection (value (info, none), s) came closes size gets =
      connection {T = Transport}
        (value (info, none), record s { inbox = s.inbox ++ came; eof = closes }) size gets
  encrypted_connection (error e, s) came closes size gets =
      connection {T = Transport} (error e, s) size gets
  encrypted_connection (panic, s) came closes size gets =
      connection {T = Transport} (panic, s) size gets
  encrypted_connection (pending f, s) came closes size gets =
      connection {T = Transport} (pending f, s) size gets

  connection-value :
      (r : Poll SessionErr (DataSrvInfo × Option Transport) × Sock) (came : List ℕ) (closes : Bool)
      (size : ℕ) (gets : List ℕ) (info : DataSrvInfo) (t : Transport)
      → r.0 ≡ value (info, some t)
      → encrypted_connection r came closes size gets
        ≡ encrypted_connection (value (info, some t), r.1) came closes size gets
  connection-value (p, s) came closes size gets info t e =
      ap (λ q. encrypted_connection (q, s) came closes size gets) e

module _ (infos : Bincode DataSrvInfo) (info_laws : BincodeLaws infos) (n : Noise)
    (laws : TransportLaws n) (c k : Keypair) (x : Exchange n laws c k) (approver : ClientApprover)
    (accepts₁ accepts₂ room : ℕ) (fsrv : FileSrv) where
  -- A client and this server, three rounds after the connection is made.
  abbrev pub after_rounds :
      ClientApprovalStrategy
      → Link SessionErr
          (DataSrvInfo × Option n.Transport)
          SessionErr
          (Option (n.Transport × List ℕ))
  after_rounds strategy = rounds 3 (
      start (client_session infos n (some c))
        (server_session infos n accepts₁ accepts₂ (port_of fsrv.tcp_sock) (server_data fsrv)
          (some k) strategy approver)
        room)

  -- The server's stream behind its copy, on which the session left them.
  abbrev pub server_copy :
      FileSystem → ℕ → List ℕ → ClientApprovalStrategy → Option (EncryptedWriteStream n)
  server_copy fs size readies strategy =
      let l = after_rounds strategy in
      encrypted_copy n laws fs (server_data fsrv) size readies (task_end l.server.0) l.server.1

  -- The client's connection, to which all comes that the server has sent.
  abbrev pub client_end : FileSystem → ℕ → List ℕ → List ℕ → ClientApprovalStrategy → Session
  client_end fs size readies gets strategy =
      let l = after_rounds strategy in
      encrypted_connection n laws l.client
        (sent_since n laws l.client_got (server_copy fs size readies strategy))
        (has_closed n laws (server_copy fs size readies strategy)) size gets

  all_got :
      (strategy : ClientApprovalStrategy)
      → (after_rounds strategy).client_got ≡ length (after_rounds strategy).server.1.outbox
  unfolding rounds
  all_got strategy = refl

  -- The client's copy, where its session left a transport and nothing to read, and the server's copy
  -- has sent `wire`.
  client_end-copied :
      (fs : FileSystem) (size : ℕ) (readies gets : List ℕ) (written : EncryptedWriteStream n)
      (wire : List ℕ) (cs : List (List ℕ)) (info : DataSrvInfo) (content : List ℕ) (t : n.Transport)
      → let l = after_rounds interactive in
        l.client.0 ≡ value (info, some t)
        → l.client.1.inbox ≡ []
        → server_copy fs size readies interactive ≡ some written
        → written.underlying.outbox ≡ l.server.1.outbox ++ wire
        → length gets ≡ suc (length cs)
        → download_to_file went_well all_well info (
            copy
              (read_chunks n laws
                (reader n laws (closed n laws l.client.1) wire t)
                (map (λ c. size) cs ++ (size ∷ []))).0)
          ≡ done content
        → Brings (client_end fs size readies gets interactive) info content
  client_end-copied fs size readies gets written wire cs info content t ends empty copied sends
        as_many file =
      let l = after_rounds interactive in
      let new_bytes : sent_since n laws l.client_got (server_copy fs size readies interactive)
          ≡ wire =
        ap (sent_since n laws l.client_got) copied
        ∙ (λ i. drop (all_got interactive i) (sends i))
        ∙ drop-append_length l.server.1.outbox wire in
      let ended : has_closed n laws (server_copy fs size readies interactive) ≡ true =
        ap (has_closed n laws) copied in
      (
        _,
        connection-value n laws l.client
            (sent_since n laws l.client_got (server_copy fs size readies interactive))
            (has_closed n laws (server_copy fs size readies interactive)) size gets info t ends,
        (λ i. download_to_file went_well all_well info (
              copy
                (read_chunks n laws
                  (reader n laws (record l.client.1 { eof = ended i }) (empty i ++ new_bytes i) t)
                  (same_rooms size gets cs as_many i)).0))
            ∙ file,
      )

  -- A server over the file at a path, and a client that its user accepts.
  pub client_end-whole :
      (fs : FileSystem) (path : FilePath) (content : List ℕ) (file src : AsyncFileReader)
      (env : BuildEnv) (ss : List Setting) (bytes : List ℕ) (size : ℕ) (readies gets : List ℕ)
      → fs path ≡ some content
      → open_reader fs path ≡ some file
      → build env (configure (new file) ss) ≡ some fsrv
      → fsrv.encrypted ≡ true
      → approver (record { pubkey = c.public }) ≡ some true
      → infos.serialize (data_info (port_of fsrv.tcp_sock) (server_data fsrv)) ≡ some bytes
      → length bytes < 256
      → 1 ≤ accepts₁
      → length bytes ≤ accepts₂
      → 8 + length bytes + length x.m₁ + length x.m₂ + length x.m₃ + 19 * length content ≤ room
      → 0 < size
      → size + 16 ≤ max_chunk_size
      → All (λ r. 0 < r) readies
      → length content ≤ length readies
      → clone fs (server_data fsrv).content ≡ some src
      → length gets ≡ suc (length (drained (read_many src (reads size readies)).0))
      → let info = data_info (port_of fsrv.tcp_sock) (server_data fsrv) in
        let client = client_end fs size readies gets interactive in
        ((written : EncryptedWriteStream n) × (server_copy fs size readies interactive
            ≡ some written))
        × Brings client info content
  client_end-whole fs path content file src env ss bytes size readies gets at opens builds encrypts
        says ser small all₁ all₂ enough hs fits ready reads_all again as_many =
      let l = after_rounds interactive in
      let port = port_of fsrv.tcp_sock in
      let self = server_data fsrv in
      let (knows, ends, (src₁, again₁, (written, wire, takes, sends, whole))) =
        session-download_to_file infos info_laws n laws c k x approver room fs path content file env
          ss fsrv port accepts₁ accepts₂ bytes size readies l.client.1 at opens builds encrypts says
          ser small all₁ all₂ enough hs fits ready reads_all in
      let (still_open, space, empty) =
        approved_socket infos info_laws n laws c k x approver room self port accepts₁ accepts₂ bytes
          (is_ephemeral fsrv encrypts) ser small all₁ all₂ (omega arith) says in
      let same : src ≡ src₁ = cc in
      let copied : server_copy fs size readies interactive ≡ some written =
        ap (λ e. encrypted_copy n laws fs self size readies e l.server.1) ends ∙ rw again₁ takes in
      let client =
        client_end-copied fs size readies gets written wire _ (data_info port self) content
          x.client_transport knows empty copied sends
          (as_many ∙ ap (λ s. suc (length (drained (read_many s (reads size readies)).0))) same)
          whole in
      ((written, copied), client)
