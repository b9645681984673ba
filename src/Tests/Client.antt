-- ===== src/Tests/Client.antt =====
-- The server's info, the downloaded file, the choice of a server, and file streams.
use hubtain.Common.{
  ℕ, ◌+◌, ◌%◌, ◌^◌, ◌≤◌, ◌≡◌, refl, Bool, true, false, ◌==◌, List, [], ◌∷◌, ◌++◌, Option, some,
  none, arith, length, take, replicate, take-append_length,
}
use hubtain.Stream.{Sock, poll}
use hubtain.Stream.Link.{fresh}
use hubtain.EncryptedStream.{poll_ok}
use hubtain.Server.{SocketAddr, v4_addr, v6_addr}
use hubtain.Models.{
  DataSrvInfo, DiscoveryReply, Bincode, BincodeLaws, decoded, write_to_stream, read_from_stream,
}
use hubtain.Models.Info.{read_from_stream_long}
use hubtain.Files.{FileSystem, ProgressWriter}
use hubtain.Writers.{AsyncWriter, WriterCall, write, flush, close, run_calls, progress_writer}
use hubtain.Writers.Progress.{taken, run_calls-progress_writer}
use hubtain.Client.{find_server}
use hubtain.Client.Discovery.{Replied, datagrams, Chosen, find_server-Chosen}

-- The record as three bytes and the name, behind its length.
abbrev of_bool : Bool → ℕ
of_bool true = 1
of_bool false = 0

abbrev to_bool : ℕ → Bool
to_bool b = b == 1

to_bool-of_bool : (b : Bool) → to_bool (of_bool b) ≡ b
to_bool-of_bool true = refl
to_bool-of_bool false = refl

abbrev info_serialize : DataSrvInfo → Option (List ℕ)
info_serialize i =
    some (i.tcp_port ∷ i.data_length ∷ of_bool i.encrypted ∷ length i.data_name ∷ i.data_name)

abbrev info_deserialize : List ℕ → Option DataSrvInfo
info_deserialize (p ∷ l ∷ e ∷ n ∷ name) =
    some (record { tcp_port = p; data_length = l; encrypted = to_bool e; data_name = take n name })
info_deserialize _ = none

abbrev pub info_code : Bincode DataSrvInfo
info_code = record { serialize = info_serialize; deserialize = info_deserialize }

info_reads :
    (i : DataSrvInfo) (bytes extra : List ℕ)
    → info_serialize i ≡ some bytes
    → info_deserialize (bytes ++ extra) ≡ some i
info_reads i bytes extra e =
    let is : i.tcp_port ∷ i.data_length ∷ of_bool i.encrypted ∷ length i.data_name ∷ i.data_name
        ≡ bytes =
      cc in
    rw (← is, to_bool-of_bool, take-append_length) refl

pub info_laws : BincodeLaws info_code
info_laws = record { deserialize-serialize = info_reads }

abbrev reply_serialize : DiscoveryReply → Option (List ℕ)
reply_serialize r = some (r.tcp_port ∷ length r.server_name ∷ r.server_name)

abbrev reply_deserialize : List ℕ → Option DiscoveryReply
reply_deserialize (p ∷ n ∷ name) = some (record { server_name = take n name; tcp_port = p })
reply_deserialize _ = none

abbrev pub reply_code : Bincode DiscoveryReply
reply_code = record { serialize = reply_serialize; deserialize = reply_deserialize }

reply_reads :
    (r : DiscoveryReply) (bytes extra : List ℕ)
    → reply_serialize r ≡ some bytes
    → reply_deserialize (bytes ++ extra) ≡ some r
reply_reads r bytes extra e =
    let is : r.tcp_port ∷ length r.server_name ∷ r.server_name ≡ bytes = cc in
    rw (← is, take-append_length) refl

pub reply_laws : BincodeLaws reply_code
reply_laws = record { deserialize-serialize = reply_reads }

abbrev info : DataSrvInfo
info = record { tcp_port = 80; data_length = 3; encrypted = true; data_name = 97 ∷ 98 ∷ [] }

abbrev info_bytes : List ℕ
info_bytes = 80 ∷ 3 ∷ 1 ∷ 2 ∷ 97 ∷ 98 ∷ []

abbrev long_info : DataSrvInfo
long_info = record { tcp_port = 80; data_length = 3; encrypted = true; data_name = replicate 254 1 }

abbrev long : List ℕ
long = 80 ∷ 3 ∷ 1 ∷ 254 ∷ replicate 254 1

abbrev holds_long : Sock
holds_long = record (fresh 9) { inbox = 2 ∷ (long ++ []) }

written : write_to_stream 1 258 info_code long_info ≡ some (2 ∷ long)
unfolding write_to_stream
written = refl

read_from_stream_long_example :
    (over : List ℕ) × (256 ≤ length over)
    × (take (length long % 256) long ++ over ≡ long)
    × ((poll (read_from_stream info_code) holds_long).0
        ≡ (poll (decoded (info_code.deserialize (take (length long % 256) long))) holds_long).0)
    × ((poll (read_from_stream info_code) holds_long).1.inbox ≡ over ++ [])
read_from_stream_long_example =
    read_from_stream_long info_code long_info long (2 ∷ long) [] 1 258 holds_long refl (omega arith)
      (omega arith) (omega arith) written refl

abbrev pub replied : ℕ → Replied reply_code
replied port = record {
  reply = record { server_name = 65 ∷ []; tcp_port = port };
  payload = port ∷ 1 ∷ 65 ∷ [];
  peer = v6_addr 42444;
  encodes = refl;
  fits = omega arith;
}

abbrev wants : SocketAddr → Bool
wants (v4_addr ip port) = false
wants (v6_addr port) = port == 7

find_server-Chosen_example :
    Chosen reply_code reply_laws wants
      (replied 6 ∷ replied 7 ∷ [])
      (find_server reply_code wants (datagrams reply_code reply_laws (replied 6 ∷ replied 7 ∷ [])))
find_server-Chosen_example =
    find_server-Chosen reply_code reply_laws wants (replied 6 ∷ replied 7 ∷ [])

abbrev fs : FileSystem
fs path = some (1 ∷ 2 ∷ 3 ∷ [])

-- A writer that takes all, and counts the calls.
abbrev counting : AsyncWriter ℕ
counting = record {
  poll_write = λ calls buf. (poll_ok (length buf), calls + 1);
  poll_flush = λ calls. (poll_ok tt, calls + 1);
  poll_close = λ calls. (poll_ok tt, calls + 1);
}

abbrev progress : ProgressWriter ℕ
progress = record { inner = 0; bytes_writen = 5 }

abbrev calls : List WriterCall
calls = write (1 ∷ 2 ∷ []) ∷ flush ∷ write (3 ∷ []) ∷ close ∷ []

run_calls-progress_writer_example :
    let (replies, last) = run_calls (progress_writer counting) progress calls in
    let (replies', inner) = run_calls counting 0 calls in
    (replies ≡ replies')
    × (last.inner ≡ inner)
    × (last.bytes_writen ≡ (5 + taken replies') % 2 ^ 64)
run_calls-progress_writer_example = run_calls-progress_writer counting calls progress (omega arith)
