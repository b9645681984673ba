-- ===== src/Session.antt =====
-- client.rs (`download_to_file` up to the copy, `encryption_handshake`) and server/mod.rs (a client in
-- `data_srv`, up to the copy): the first part of a connection, at both ends.
pub mod Ends
pub mod ClientTurns
pub mod Rounds
pub mod Download
pub mod Plain
use hubtain.Common.{ℕ, if◌then◌else◌, List, Option, none, some}
use hubtain.Stream.{Fut, Poll, value, error, panic, pending, ready, fail, write_all, map_err, ◌>>=◌}
use hubtain.Approval.{ClientApprovalStrategy, ClientApprover}
use hubtain.Models.{
  DataSrvInfo, Bincode, InfoErr, io_error, bad_encoding, read_from_stream, write_to_stream,
}
use hubtain.EncryptedStream.{Noise, Keypair, EncStreamErr, client_not_accepted}
use hubtain.EncryptedStream.Client
use hubtain.EncryptedStream.Server
use hubtain.Serve.Data.{ServerData, EncryptionType, no_encryption, ephemeral, data_info}

-- `anyhow::Error`, as far as the code made it; an error of the client's handshake comes with the info
-- that the client has read before.
pub data SessionErr : Type 0 where
  info_err : InfoErr → SessionErr
  handshake_err : DataSrvInfo → EncStreamErr → SessionErr
  enc_err : EncStreamErr → SessionErr

-- How a client that was accepted gets to the copy, or where it ends before: `data_srv` fails at the
-- info, and gives the client no task; or the task ends, or one of the two waits.
pub data TaskEnd (A : Type 0) : Type 0 where
  copies : A → TaskEnd A
  turned_down not_started task_error task_panic waits : TaskEnd A

-- The `?` on the info, and the `match` on the key exchange: a client that was turned down is no error.
abbrev pub task_end : {A : Type 0} → Poll SessionErr A → TaskEnd A
task_end (value a) = copies a
task_end (error (info_err e)) = not_started
task_end (error (handshake_err info e)) = task_error
task_end (error (enc_err client_not_accepted)) = turned_down
task_end (error (enc_err e)) = task_error
task_end panic = task_panic
task_end (pending f) = waits

module _ (code : Bincode DataSrvInfo) (n : Noise) where
  open n use {Transport}

  -- `encryption_handshake`
  abbrev pub encryption_handshake : DataSrvInfo → Option Keypair → Fut SessionErr Transport
  encryption_handshake info generated =
      map_err (handshake_err info) (Client.key_exchange n generated)

  -- The handshake, if the info says so.
  unfoldable pub client_stream :
      Option Keypair → DataSrvInfo → Fut SessionErr (DataSrvInfo × Option Transport)
  client_stream generated info =
      if info.encrypted
      then (encryption_handshake info generated >>= λ t. ready (info, some t))
      else ready (info, none)

  unfoldable pub client_session : Option Keypair → Fut SessionErr (DataSrvInfo × Option Transport)
  unfolding client_stream
  client_session generated =
      map_err info_err (read_from_stream code) >>= λ info. client_stream generated info

  -- What the two writes of the info put on the stream.
  abbrev pub sends_info : {A : Type 0} → Option (List ℕ) → Fut SessionErr A → Fut SessionErr A
  sends_info none next = fail (info_err bad_encoding)
  sends_info (some wire) next = write_all wire (λ e. info_err (io_error e)) next

  abbrev pub server_stream :
      EncryptionType
      → Option Keypair
      → ClientApprovalStrategy
      → ClientApprover
      → Fut SessionErr (Option (Transport × List ℕ))
  server_stream ephemeral generated strategy approver =
      map_err enc_err (Server.key_exchange n generated strategy approver) >>= λ t. ready (some t)
  server_stream no_encryption generated strategy approver = ready none

  -- The info, of which the two writes take so many bytes at most, and the stream for the copy.
  unfoldable pub server_session :
      ℕ
      → ℕ
      → ℕ
      → ServerData
      → Option Keypair
      → ClientApprovalStrategy
      → ClientApprover
      → Fut SessionErr (Option (Transport × List ℕ))
  server_session accepts₁ accepts₂ port self generated strategy approver =
      sends_info (write_to_stream accepts₁ accepts₂ code (data_info port self))
        (server_stream self.enctype generated strategy approver)
