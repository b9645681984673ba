-- ===== src/Session/Download.antt =====
-- A whole download: the info, the key exchange, and the file.
use hubtain.Common.{ℕ, ◌+◌, ◌*◌, ◌≤◌, ◌<◌, ◌≡◌, true, List, some, length, All, arith}
use hubtain.Stream.{Sock, value}
use hubtain.Stream.Link.{rounds, start}
use hubtain.Framing.{max_chunk_size}
use hubtain.Approval.{ClientApprover, interactive}
use hubtain.Models.{DataSrvInfo, Bincode, BincodeLaws}
use hubtain.EncryptedStream.{Noise, TransportLaws, Keypair}
use hubtain.EncryptedStream.Agreement.{Exchange}
use hubtain.Files.{FileSystem, FilePath, AsyncFileReader, clone, open_reader}
use hubtain.Files.Streams.{read_many}
use hubtain.Files.Copy.{drained, reads}
use hubtain.Server.{FileSrv, BuildEnv, new, build}
use hubtain.Server.Builder.{Setting, configure}
use hubtain.Serve.Data.{ephemeral, server_data, data_info}
use hubtain.Client.WholeFile.{Arrives, serve-download_to_file}
use hubtain.Session.{client_session, server_session, copies, task_end}
use hubtain.Session.Rounds.{session-approved, approved_socket}

pub is_ephemeral : (srv : FileSrv) → srv.encrypted ≡ true → (server_data srv).enctype ≡ ephemeral
unfolding server_data
is_ephemeral srv e = rw e

module _ (code : Bincode DataSrvInfo) (codes : BincodeLaws code) (n : Noise)
    (laws : TransportLaws n) (c k : Keypair) (x : Exchange n laws c k) (approver : ClientApprover)
    (room : ℕ) (fs : FileSystem) (path : FilePath) (content : List ℕ) (file : AsyncFileReader)
    (env : BuildEnv) (settings : List Setting) (srv : FileSrv) where
  -- A server built, with settings that leave it encrypted, over the file at a path, and a client that
  -- its approver accepts, on an open connection, with keys for which the noise pattern runs as
  -- documented, and with an info of less than 256 bytes that its two writes take whole. After three
  -- rounds the client has the info, and both have their transports; then the reader that is cloned for
  -- the client, read through a buffer that leaves room for the tag of a message, gives chunks that the
  -- server's stream takes, on the socket as the key exchange left it; and from their bytes on the
  -- wire, and the end of the stream behind them, the client makes, with one read more than there are
  -- chunks, and where the calls on its file succeed, a file with exactly the bytes at the path. The
  -- system gives a byte at least on each read of the server, these reads are as many as the bytes, and
  -- the socket has the room for the messages and for 19 times the bytes.
  pub session-download_to_file :
      (port accepts₁ accepts₂ : ℕ) (bytes : List ℕ) (size : ℕ) (readies : List ℕ) (sock : Sock)
      → fs path ≡ some content
      → open_reader fs path ≡ some file
      → build env (configure (new file) settings) ≡ some srv
      → srv.encrypted ≡ true
      → approver (record { pubkey = c.public }) ≡ some true
      → code.serialize (data_info port (server_data srv)) ≡ some bytes
      → length bytes < 256
      → 1 ≤ accepts₁
      → length bytes ≤ accepts₂
      → 8 + length bytes + length x.m₁ + length x.m₂ + length x.m₃ + 19 * length content ≤ room
      → 0 < size
      → size + 16 ≤ max_chunk_size
      → All (λ r. 0 < r) readies
      → length content ≤ length readies
      → let l = rounds 3 (
          start
            (client_session code n (some c))
            (server_session code n accepts₁ accepts₂ port
              (server_data srv)
              (some k)
              interactive
              approver)
            room) in
        (l.client.0 ≡ value (data_info port (server_data srv), some x.client_transport))
        × (task_end l.server.0 ≡ copies (some (x.server_transport, c.public)))
        × ((src : AsyncFileReader) × (clone fs (server_data srv).content ≡ some src)
            × Arrives n laws size
                (record {
                  underlying = l.server.1;
                  noise = x.server_transport;
                  their_pubkey = c.public;
                })
                x.client_transport
                sock
                (server_data srv)
                port
                (drained (read_many src (reads size readies)).0)
                content)
  session-download_to_file port accepts₁ accepts₂ bytes size readies sock at_path opens builds
        encrypts says ser small all₁ all₂ enough hs fits ready reads_all =
      let enc = is_ephemeral srv encrypts in
      let (client, server, paired) =
        session-approved code codes n laws c k x approver room (server_data srv) port accepts₁
          accepts₂ bytes enc ser small all₁ all₂ (omega arith) says in
      let (open_sock, space, nothing_left) =
        approved_socket code codes n laws c k x approver room (server_data srv) port accepts₁
          accepts₂ bytes enc ser small all₁ all₂ (omega arith) says in
      (
        client,
        server,
        serve-download_to_file n laws fs path content file env settings srv size readies _
            x.client_transport sock port at_path opens builds hs fits ready reads_all paired
            open_sock (omega arith),
      )
