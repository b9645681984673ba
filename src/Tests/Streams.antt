-- ===== src/Tests/Streams.antt =====
-- Frames and encrypted streams on small sockets.
use hubtain.Common.{ℕ, ◌≡◌, refl, true, some, List, [], ◌∷◌, ◌++◌, arith}
use hubtain.Stream.{Sock, poll, value, await}
use hubtain.Stream.Link.{fresh, arrival}
use hubtain.Framing.{recv, send}
use hubtain.Framing.RoundTrip.{recv-send}
use hubtain.EncryptedStream.{poll_ok, poll_pending}
use hubtain.EncryptedStream.Client.{EncryptedReadStream, poll_read}
use hubtain.EncryptedStream.Server.{EncryptedWriteStream, poll_write}
use hubtain.EncryptedStream.Delivery.{
  Delivered, write_chunks, read_chunks, reader, write_chunks-Delivered,
}
use hubtain.Models.{DataSrvInfo}
use hubtain.Client.{went_well, all_well, done, copy, download_to_file}
use hubtain.Client.Transfer
use hubtain.Client.Transfer.{transfer-broken_off}
use hubtain.EncryptedStream.Partial.{poll_read_partial, poll_read_cut, poll_write_full}
use hubtain.Tests.Toy.{toy, toy_laws, tag}

abbrev message : List ℕ
message = 1 ∷ 2 ∷ 3 ∷ []

-- The frame of the message comes in two parts.
abbrev front : List ℕ
front = 0 ∷ 3 ∷ 1 ∷ []

abbrev back : List ℕ
back = 2 ∷ 3 ∷ []

abbrev filled : List ℕ → Sock
filled bytes = record (fresh 100) { inbox = bytes }

abbrev closed : List ℕ → Sock
closed bytes = record (fresh 100) { inbox = bytes; eof = true }

abbrev writer : ℕ → EncryptedWriteStream toy
writer room = record { underlying = fresh room; noise = 4; their_pubkey = 7 ∷ [] }

abbrev reader_on : Sock → EncryptedReadStream toy
reader_on sock = record { underlying = sock; noise = 4 }

abbrev jobs : List (List ℕ × ℕ)
jobs = ((1 ∷ 2 ∷ []), 2) ∷ ((3 ∷ []), 10) ∷ []

sent : (poll (send message) (fresh 9)).1.outbox ≡ 0 ∷ 3 ∷ 1 ∷ 2 ∷ 3 ∷ []
unfolding send poll
sent = refl

recv-send_example :
    ((poll (send message) (fresh 9)).0 ≡ value 5)
    × (poll recv (filled (0 ∷ 3 ∷ 1 ∷ 2 ∷ 3 ∷ 9 ∷ [])) ≡ (value message, filled (9 ∷ [])))
recv-send_example =
    recv-send message (0 ∷ 3 ∷ 1 ∷ 2 ∷ 3 ∷ []) (9 ∷ []) (fresh 9)
      (filled (0 ∷ 3 ∷ 1 ∷ 2 ∷ 3 ∷ 9 ∷ [])) (omega arith) refl (omega arith) sent refl

write_chunks-Delivered_example : Delivered toy toy_laws jobs (writer 100) 4
write_chunks-Delivered_example =
    write_chunks-Delivered toy toy_laws jobs (writer 100) 4 refl
      ((omega arith, omega arith), ((omega arith, omega arith), tt)) refl (omega arith)

poll_read_partial_example :
    (poll_read toy (reader_on (filled front)) 50 ≡ (poll_pending, reader_on (filled [])))
    × ((await (poll recv (filled front)) (arrival back ∷ [])).0 ≡ value message)
poll_read_partial_example =
    poll_read_partial toy (reader_on (filled front)) 50 message front back (omega arith) refl
      (omega arith) refl refl

poll_read_cut_example :
    poll_read toy (reader_on (closed front)) 50 ≡ (poll_ok [], reader_on (closed []))
poll_read_cut_example =
    poll_read_cut toy (reader_on (closed front)) 50 message front back (omega arith) refl
      (omega arith) refl refl

poll_write_full_example : poll_write toy (writer 3) (1 ∷ []) ≡ (
  poll_pending,
  record (writer 3) {
    underlying = record (fresh 3) { outbox = 0 ∷ 17 ∷ 4 ∷ []; room = 0 };
    noise = 5;
  },
)
poll_write_full_example =
    poll_write_full toy (writer 3) (1 ∷ []) (tag 4 ++ (1 ∷ [])) 5 refl refl (omega arith)

-- A content of four bytes, of which three came before the connection broke off inside a message.
abbrev info : DataSrvInfo
info = record { tcp_port = 80; data_length = 4; encrypted = true; data_name = 97 ∷ [] }

transfer-broken_off_example :
    (written : EncryptedWriteStream toy) × (wire : List ℕ) × (write_chunks toy toy_laws
        (writer 100)
        ((1 ∷ 2 ∷ []) ∷ (3 ∷ []) ∷ [])
      ≡ some written)
    × (written.underlying.outbox ≡ [] ++ wire)
    × (download_to_file went_well all_well info (
          copy
            (read_chunks toy toy_laws
              (reader toy toy_laws (Transfer.closed toy toy_laws (fresh 100)) (wire ++ front) 4)
              (2 ∷ 10 ∷ 5 ∷ [])).0)
        ≡ done (1 ∷ 2 ∷ 3 ∷ 0 ∷ []))
transfer-broken_off_example =
    transfer-broken_off toy toy_laws jobs (writer 100) 4 (fresh 100) info (1 ∷ 2 ∷ 3 ∷ 9 ∷ [])
      (9 ∷ []) message front back 5 refl
      ((omega arith, omega arith), ((omega arith, omega arith), tt))
      (omega arith, (omega arith, tt)) refl (omega arith) refl refl (omega arith) refl (omega arith)
