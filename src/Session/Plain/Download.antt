-- ===== src/Session/Plain/Download.antt =====
-- A whole download from a server without encryption.
use hubtain.Common.{
  ℕ, suc, ◌+◌, ◌-◌, ◌≤◌, ◌<◌, ◌≡◌, refl, sym, subst, Bool, ap, ◌∙◌, false, true, List, ◌++◌, map,
  Option, none, some, arith, length, concat, All,
}
use native.Mathlib.Nat.{zero-add}
use hubtain.Stream.{Sock, value, poll, Arrival, arrive_all, await, map_err}
use hubtain.Stream.Link.{fresh}
use hubtain.Stream.Bind.{poll->>=_value, poll-map_err_value}
use hubtain.Stream.Resume.{IsOrdered, await-arrive_all}
use hubtain.Stream.Steps.{poll-write_enough}
use hubtain.Approval.{ClientApprover, ClientApprovalStrategy}
use hubtain.Models.{DataSrvInfo, Bincode, BincodeLaws, read_from_stream, write_to_stream}
use hubtain.Models.Info.{info_wire, read_from_stream_all, write_to_stream_all}
use hubtain.EncryptedStream.{Noise, Keypair}
use hubtain.Files.{FileSystem, FilePath, AsyncFileReader, clone, open_reader}
use hubtain.Files.Streams.{read_many}
use hubtain.Files.Copy.{drained, reads, drained-read_many, open_reader-left}
use hubtain.Server.{FileSrv, BuildEnv, new, build}
use hubtain.Server.Builder.{Setting, configure, build-content}
use hubtain.Serve.Data.{ServerData, no_encryption, server_data, data_info}
use hubtain.Client.{went_well, all_well, done, download_to_file}
use hubtain.Client.Download.{HasEnded, download_whole}
use hubtain.Session.{client_stream, client_session, server_session, info_err}
use hubtain.Session.Plain.{
  copy_to_stream, copy_from_stream, copy_to_stream_all, copy_from_stream-concat, arrive_all-inbox,
}

module _ (code : Bincode DataSrvInfo) (codes : BincodeLaws code) (n : Noise) where
  poll-server_session :
      (accepts₁ accepts₂ port : ℕ) (self : ServerData) (generated : Option Keypair)
      (strategy : ClientApprovalStrategy) (approver : ClientApprover) (wire : List ℕ) (s : Sock)
      → write_to_stream accepts₁ accepts₂ code (data_info port self) ≡ some wire
      → self.enctype ≡ no_encryption
      → s.broken ≡ false
      → length wire ≤ s.room
      → poll (server_session code n accepts₁ accepts₂ port self generated strategy approver) s
        ≡ (value none, record s { outbox = s.outbox ++ wire; room = s.room - length wire })
  unfolding server_session
  poll-server_session accepts₁ accepts₂ port self generated strategy approver wire s sent enc b h =
      rw (sent, enc) (poll-write_enough wire _ _ s b h ∙ (unfold poll in refl))

  poll-client_session :
      (generated : Option Keypair) (info : DataSrvInfo) (bytes rest : List ℕ) (s : Sock)
      → code.serialize info ≡ some bytes
      → length bytes < 256
      → info.encrypted ≡ false
      → s.inbox ≡ info_wire code bytes ++ rest
      → poll (client_session code n generated) s ≡ (value (info, none), record s { inbox = rest })
  unfolding client_session client_stream
  poll-client_session generated info bytes rest s e small enc came =
      ap (λ (bs : List ℕ). poll (client_session code n generated) (record s { inbox = bs })) came
      ∙ (poll->>=_value (map_err info_err (read_from_stream code)) (client_stream code n generated)
            (record s { inbox = info_wire code bytes ++ rest })
            (poll-map_err_value info_err (read_from_stream code)
              (record s { inbox = info_wire code bytes ++ rest })
              (read_from_stream_all code codes info bytes rest s e small))
          ∙ rw enc (unfold poll in refl))

  -- The copy on what the session leaves of the server's socket.
  poll-copy_to_stream :
      (s : Sock) (wire : List ℕ) (cs : List (List ℕ)) (content : List ℕ) (room : ℕ)
      → s ≡ record (fresh room) { outbox = wire; room = room - length wire }
      → concat cs ≡ content
      → length wire + length content ≤ room
      → let copied = poll (copy_to_stream 0 cs) s in
        (copied.0 ≡ value (length content)) × (copied.1.outbox ≡ wire ++ content)
  poll-copy_to_stream s wire cs content room is e h =
      let sock : Sock = record (fresh room) { outbox = wire; room = room - length wire } in
      let len : length (concat cs) ≡ length content = ap length e in
      let ends =
        ap (poll (copy_to_stream 0 cs)) is
        ∙ copy_to_stream_all cs 0 sock refl (omega (arith, len)) in
      (
        ap (λ r. r.0) ends ∙ ap value (zero-add _ ∙ len),
        ap (λ r. r.1.outbox) ends ∙ ap (◌++◌ wire) e,
      )

  -- The file of a client that has all the bytes before it, on a stream that has ended behind them.
  received_whole :
      (info : DataSrvInfo) (into : ℕ) (gets inbox content : List ℕ) (eof : Bool)
      → 0 < into
      → All (λ r. 0 < r) gets
      → length content < length gets
      → info.data_length ≡ length content
      → inbox ≡ content
      → eof ≡ true
      → download_to_file went_well all_well info (copy_from_stream into gets inbox eof)
        ≡ done content
  received_whole info into gets inbox content eof hi got all len same ends =
      let (whole, well) =
        copy_from_stream-concat into gets content hi got (omega (arith, ap length same)) in
      (λ i. download_to_file went_well all_well info (copy_from_stream into gets (same i) (ends i)))
      ∙ download_whole info (copy_from_stream into gets content true).chunks
          (copy_from_stream into gets content true).ends content (subst HasEnded (sym well) tt)
          whole len

  -- The client's end.
  await-client_session :
      (generated : Option Keypair) (info : DataSrvInfo) (bytes content : List ℕ) (client_room : ℕ)
      (arrivals : List Arrival)
      → code.serialize info ≡ some bytes
      → length bytes < 256
      → info.encrypted ≡ false
      → IsOrdered arrivals
      → concat (map (λ (d : Arrival). d.bytes) arrivals) ≡ info_wire code bytes ++ content
      → (arrive_all (fresh client_room) arrivals).eof ≡ true
      → let client = await (poll (client_session code n generated) (fresh client_room)) arrivals in
        (client.0 ≡ value (info, none)) × (client.1.inbox ≡ content) × (client.1.eof ≡ true)
  await-client_session generated info bytes content client_room arrivals ser small plain ordered
        came closes =
      let at_once =
        await-arrive_all (client_session code n generated) (fresh client_room) arrivals refl
          ordered in
      let ends =
        at_once
        ∙ poll-client_session generated info bytes content (arrive_all (fresh client_room) arrivals)
            ser small plain (arrive_all-inbox arrivals (fresh client_room) ∙ came) in
      (ap (λ r. r.0) ends, ap (λ r. r.1.inbox) ends, ap (λ r. r.1.eof) ends ∙ closes)

  -- A server built, with settings that leave it without encryption, over the file at a path, whose info
  -- of less than 256 bytes the two writes take whole, on a stream with room for all. It sends the info
  -- without asking its user, and then the copy of the reader that is cloned for the client; all its
  -- bytes are counted. However what is on the wire arrives at a client, in pieces of any size, and the
  -- end of the stream behind it, the client reads the info, makes no handshake, and copies from what came behind the info a file with
  -- exactly the bytes at the path. Both copies get a byte at least on each read, while there is one; the
  -- server makes as many reads as there are bytes, and the client one more.
  pub plain-download_to_file :
      (fs : FileSystem) (path : FilePath) (content : List ℕ) (file : AsyncFileReader)
      (env : BuildEnv) (settings : List Setting) (srv : FileSrv) (generated : Option Keypair)
      (approver : ClientApprover) (port accepts₁ accepts₂ room client_room : ℕ) (bytes : List ℕ)
      (size into : ℕ) (readies gets : List ℕ) (arrivals : List Arrival)
      → fs path ≡ some content
      → open_reader fs path ≡ some file
      → build env (configure (new file) settings) ≡ some srv
      → srv.encrypted ≡ false
      → code.serialize (data_info port (server_data srv)) ≡ some bytes
      → length bytes < 256
      → 1 ≤ accepts₁
      → length bytes ≤ accepts₂
      → suc (length bytes) + length content ≤ room
      → 0 < size
      → All (λ r. 0 < r) readies
      → length content ≤ length readies
      → 0 < into
      → All (λ r. 0 < r) gets
      → length content < length gets
      → IsOrdered arrivals
      → concat (map (λ (d : Arrival). d.bytes) arrivals) ≡ info_wire code bytes ++ content
      → (arrive_all (fresh client_room) arrivals).eof ≡ true
      → let info = data_info port (server_data srv) in
        let server =
          poll
            (server_session code n accepts₁ accepts₂ port
              (server_data srv)
              none
              srv.client_approval_strategy
              approver)
            (fresh room) in
        let client = await (poll (client_session code n generated) (fresh client_room)) arrivals in
        (server.0 ≡ value none)
        × ((src : AsyncFileReader) × (clone fs (server_data srv).content ≡ some src)
            × (let copied =
                  poll
                    (copy_to_stream 0 (drained (read_many src (reads size readies)).0))
                    server.1 in
                (copied.0 ≡ value (length content))
                × (copied.1.outbox ≡ info_wire code bytes ++ content)))
        × (client.0 ≡ value (info, none))
        × (download_to_file went_well all_well info
              (copy_from_stream into gets client.1.inbox client.1.eof)
            ≡ done content)
  unfolding server_data data_info
  plain-download_to_file fs path content file env settings srv generated approver port accepts₁
        accepts₂ room client_room bytes size into readies gets arrivals at opens builds plain ser
        small all₁ all₂ enough hs gives reads_all hi got gets_all ordered came closes =
      let (whole, again, len) = open_reader-left fs path content file at opens in
      let (same, same_length) = build-content env file settings srv builds in
      let (all, filled) =
        drained-read_many size readies file hs gives (omega (arith, ap length whole)) in
      let self = server_data srv in
      let sends =
        poll-server_session accepts₁ accepts₂ port self none srv.client_approval_strategy approver
          (info_wire code bytes) (fresh room)
          (write_to_stream_all code (data_info port self) bytes accepts₁ accepts₂ ser all₁ all₂)
          (rw plain refl) refl (omega arith) in
      let (told, behind, closed) =
        await-client_session generated (data_info port self) bytes content client_room arrivals ser
          small (rw plain refl) ordered came closes in
      (
        ap (λ r. r.0) sends,
        (
          file,
          ap (clone fs) same ∙ again,
          poll-copy_to_stream _ (info_wire code bytes) _ content room (ap (λ r. r.1) sends)
              (all ∙ whole) (omega arith),
        ),
        told,
        received_whole (data_info port self) into gets _ content _ hi got gets_all
            (same_length ∙ len) behind closed,
      )
