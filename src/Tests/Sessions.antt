-- ===== src/Tests/Sessions.antt =====
-- The first part of a connection, between a client and a server.
use hubtain.Common.{ℕ, true, ◌≡◌, refl, List, [], ◌∷◌, some, arith}
use hubtain.Stream.{value}
use hubtain.Stream.Link.{rounds, start, fresh}
use hubtain.Files.{AsyncFileReader, FileSystem, FilePath, open_reader, clone}
use hubtain.Files.Streams.{read_many}
use hubtain.Files.Copy.{drained, reads}
use hubtain.Client.WholeFile.{Arrives}
use hubtain.Session.Download.{session-download_to_file}
use hubtain.Approval.{interactive, ClientApprover}
use hubtain.Serve.Data.{server_data, data_info}
use hubtain.Session.{client_session, server_session, copies, task_end}
use hubtain.Tests.Toy.{toy, toy_laws, toy_exchange, client_key, server_key}
use hubtain.Tests.Server.{env, reader, settings, srv, builds}
use hubtain.Tests.Client.{info_code, info_laws}

abbrev says : ClientApprover
says id = some true

abbrev pub path : FilePath
path = 65 ∷ []

abbrev pub content : List ℕ
content = 1 ∷ 2 ∷ []

abbrev pub fs : FileSystem
fs at = some content

pub opened : open_reader fs path ≡ some reader
unfolding open_reader
opened = refl

abbrev info_bytes : List ℕ
info_bytes = 80 ∷ 2 ∷ 1 ∷ 1 ∷ 65 ∷ []

serializes_served : info_code.serialize (data_info 80 (server_data srv)) ≡ some info_bytes
unfolding data_info server_data
serializes_served = refl

session-download_to_file_example :
    let l = rounds 3 (
      start
        (client_session info_code toy (some client_key))
        (server_session info_code toy 9 9 80 (server_data srv) (some server_key) interactive says)
        100) in
    (l.client.0 ≡ value (data_info 80 (server_data srv), some 0))
    × (task_end l.server.0 ≡ copies (some (0, 7 ∷ 8 ∷ [])))
    × ((src : AsyncFileReader) × (clone fs (server_data srv).content ≡ some src)
        × Arrives toy toy_laws 1
            (record { underlying = l.server.1; noise = 0; their_pubkey = 7 ∷ 8 ∷ [] })
            0
            (fresh 0)
            (server_data srv)
            80
            (drained (read_many src (reads 1 (9 ∷ 9 ∷ []))).0)
            content)
session-download_to_file_example =
    session-download_to_file info_code info_laws toy toy_laws client_key server_key toy_exchange
      says 100 fs path content reader env settings srv 80 9 9 info_bytes 1 (9 ∷ 9 ∷ []) (fresh 0)
      refl opened builds refl refl serializes_served (omega arith) (omega arith) (omega arith)
      (omega arith) (omega arith) (omega arith) (omega arith, (omega arith, tt)) (omega arith)
