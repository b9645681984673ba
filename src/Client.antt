-- ===== src/Client.antt =====
-- client.rs: how the client finds a server and what it writes to disk.
pub mod Discovery
pub mod Download
pub mod Transfer
pub mod WholeFile
pub mod Progress
pub mod Ping
use hubtain.Common.{
  ℕ, ◌+◌, ◌-◌, ◌++◌, ◌&&◌, true, if◌then◌else◌, Bool, List, [], ◌∷◌, Option, none, some, length,
  take, drop, replicate,
}
use hubtain.Models.{DataSrvInfo, DiscoveryReply, Bincode}
use hubtain.Server.{SocketAddr, v4_addr, v6_addr}
use hubtain.EncryptedStream.{PollResult, poll_ok, poll_err, poll_pending, poll_panic}
use hubtain.Files.Copy.{drained}
use hubtain.Files.{FilePath, AsyncFileWriter, new_writer, poll_write}
use mathlib.Core.Option

-- `buf[..n].copy_from_slice(payload)` of `recv_from`, on a buffer of 100 bytes: a longer datagram is cut,
-- and a shorter one leaves the end of the buffer as it was.
abbrev pub reply_buffer : ℕ
reply_buffer = 100

abbrev pub received : List ℕ → List ℕ → List ℕ
received buf payload = take reply_buffer payload ++ drop (length payload) buf

-- What the socket gives until the time is up: a datagram with its sender, or an error (`none`).
abbrev pub Datagrams : Type 0
Datagrams = List (Option (List ℕ × SocketAddr))

-- The loop of `read_replies_for`: the whole buffer is kept for each datagram, and an error discards
-- all; `none` is that error.
pub read_replies : List ℕ → Datagrams → Option (List (List ℕ × SocketAddr))
read_replies buf [] = some []
read_replies buf (none ∷ events) = none
read_replies buf (some (payload, peer) ∷ events) =
    let cur_content = received buf payload in
    Option.map (λ rest. (cur_content, peer) ∷ rest) (read_replies cur_content events)

read_replies_for : Datagrams → Option (List (List ℕ × SocketAddr))
unfolding read_replies
read_replies_for events = read_replies (replicate reply_buffer 0) events

-- `SocketAddr::set_port`
abbrev pub set_port : SocketAddr → ℕ → SocketAddr
set_port (v4_addr ip port) p = v4_addr ip p
set_port (v6_addr port) p = v6_addr p

module _ (code : Bincode DiscoveryReply) where
  -- The closure over one reply; `ServerInfo` holds the address alone.
  abbrev pub server_info : List ℕ × SocketAddr → Option SocketAddr
  server_info (bytes, peer) =
      Option.map (λ (reply : DiscoveryReply). set_port peer reply.tcp_port) (code.deserialize bytes)

  -- `collect` into a `Result`: one reply that does not decode is an error.
  pub collect : List (List ℕ × SocketAddr) → Option (List SocketAddr)
  collect [] = some []
  collect (r ∷ rs) = Option.bind (server_info r) (λ s. Option.map (λ ss. s ∷ ss) (collect rs))

  pub find : (SocketAddr → Bool) → List SocketAddr → Option SocketAddr
  find p [] = none
  find p (s ∷ ss) = let rest = find p ss in if p s then some s else rest

  -- `find_server` up to the connection: the address that the client connects to. With no reply, and
  -- with none that the strategy takes, the result is an error, as it is where a reply does not decode.
  pub find_server : (SocketAddr → Bool) → Datagrams → Option SocketAddr
  unfolding read_replies_for collect find
  find_server strategy events =
      Option.bind (read_replies_for events)
        (λ replies. Option.bind (collect replies) (find strategy))

-- Where a download goes: a directory takes the name that the server gives.
unfoldable pub target_path :
    (FilePath → Bool) → (FilePath → List ℕ → FilePath) → FilePath → DataSrvInfo → FilePath
target_path is_dir join path info = if is_dir path then join path info.data_name else path

-- `File::set_len`: a longer file is cut, a shorter one is filled with zeros.
abbrev pub set_len : ℕ → List ℕ → List ℕ
set_len n bytes = take n bytes ++ replicate (n - length bytes) 0

-- How a future ends, or that it does not: it returns, with or without an error, it panics, or it waits for
-- what does not come.
pub data End : Type 0 where
  went_well failed panicked waiting : End

-- What `copy` did: the chunks that it wrote, all of which the file took, and how it ended.
pub record Copied : Type 0 where
  pub chunks : List (List ℕ)
  pub ends : End

-- The copy from a stream with these results of its reads: it ends well at a read of no bytes alone.
abbrev pub copy_end : List (PollResult (List ℕ)) → End
copy_end [] = waiting
copy_end (poll_ok [] ∷ rs) = went_well
copy_end (poll_ok (b ∷ bs) ∷ rs) = copy_end rs
copy_end (poll_err e ∷ rs) = failed
copy_end (poll_pending ∷ rs) = waiting
copy_end (poll_panic ∷ rs) = panicked

abbrev pub copy : List (PollResult (List ℕ)) → Copied
copy rs = record { chunks = drained rs; ends = copy_end rs }

-- The writer after these chunks.
unfoldable pub write_chunks : AsyncFileWriter → List (List ℕ) → AsyncFileWriter
write_chunks w [] = w
write_chunks w (c ∷ cs) = write_chunks (poll_write w c (some (length c))).1 cs

-- Whether the file can be created, opened again, and cut.
pub record FileCalls : Type 0 where
  pub create : Bool
  pub reopen : Bool
  pub set_len : Bool

abbrev pub all_well : FileCalls
all_well = record { create = true; reopen = true; set_len = true }

-- How `download_to_file` ends, and what is in the file, if one has been made.
pub record Downloaded : Type 0 where
  pub ending : End
  pub file : Option (List ℕ)

abbrev pub done : List ℕ → Downloaded
done bytes = record { ending = went_well; file = some bytes }

-- From the copy on: `select!` ends with it, since the progress counter never does, and drops its result,
-- so that an error is none.
unfoldable pub after_copy : FileCalls → DataSrvInfo → End → List ℕ → Downloaded
after_copy calls info panicked written = record { ending = panicked; file = some written }
after_copy calls info waiting written = record { ending = waiting; file = some written }
after_copy calls info _ written =
    if calls.reopen && calls.set_len
    then done (set_len info.data_length written)
    else record { ending = failed; file = some written }

-- `download_to_file` from the handshake on.
pub download_to_file : (handshake : End) → FileCalls → DataSrvInfo → Copied → Downloaded
unfolding write_chunks after_copy
download_to_file went_well calls info copied =
    let written = write_chunks new_writer copied.chunks in
    if calls.create
    then after_copy calls info copied.ends written.file
    else record { ending = failed; file = none }
download_to_file handshake calls info copied = record { ending = handshake; file = none }
