-- ===== src/EncryptedStream/Server.antt =====
-- encrypted_stream/server.rs: the server's end of the key exchange, with the approval of the client,
-- and the stream that encrypts. This is the build without `cfg(test)`.
use hubtain.Common.{ℕ, if◌then◌else◌, Bool, true, List, [], ◌∷◌, Option, none, some}
use hubtain.Stream.{Fut, ready, fail, panicked, write_all, map_err, ◌>>=◌, Sock, poll}
use hubtain.Framing.{recv, send}
use hubtain.Approval.{ClientId, ClientApprovalStrategy, interactive, approve_all, ClientApprover}
use hubtain.EncryptedStream.{
  Noise, Keypair, EncStreamErr, io_err, other_err, client_not_accepted, snow, PollResult,
  poll_panic, poll_once,
}

module _ (n : Noise) where
  open n use {
    Handshake, Transport, build_responder, write_message, read_message, get_remote_static,
    into_transport_mode, encrypt,
  }

  pub record EncryptedWriteStream : Type 0 where
    pub underlying : Sock
    pub noise : Transport
    pub their_pubkey : List ℕ

  -- `.expect("Pubkey is available in this noise pattern")`
  abbrev pub expect : Option (List ℕ) → Fut EncStreamErr (List ℕ)
  expect (some k) = ready k
  expect none = panicked

  -- `approver.submit(…).await?`
  abbrev pub answered : Option Bool → Fut EncStreamErr Bool
  answered (some b) = ready b
  answered none = fail other_err

  -- The byte that tells the client, and the error that ends a rejected exchange.
  unfoldable pub approve : ClientApprovalStrategy → ClientApprover → List ℕ → Fut EncStreamErr Bool
  approve approve_all approver their_pubkey = panicked
  approve interactive approver their_pubkey = do
    approved ← answered (approver (record { pubkey = their_pubkey }))
    let approval_byte : ℕ = if approved then 1 else 0
    write_all (approval_byte ∷ []) (λ e. other_err)
        (if approved then ready true else fail client_not_accepted)

  -- The future ends in the transport state and the client's key, which `EncryptedWriteStream::new`
  -- puts beside the socket.
  unfoldable pub key_exchange :
      Option Keypair
      → ClientApprovalStrategy
      → ClientApprover
      → Fut EncStreamErr (Transport × List ℕ)
  unfolding approve
  key_exchange generated strategy approver = do
    key ← snow generated
    noise ← snow (build_responder key.private)
    msg ← map_err io_err recv
    (payload, noise) ← snow (read_message noise msg)
    (reply, noise) ← snow (write_message noise [])
    sent ← map_err io_err (send reply)
    msg ← map_err io_err recv
    (payload, noise) ← snow (read_message noise msg)
    their_pubkey ← expect (get_remote_static noise)
    approved ← approve strategy approver their_pubkey
    transport ← snow (into_transport_mode noise)
    ready (transport, their_pubkey)

  unfoldable get_client_id : EncryptedWriteStream → ClientId
  get_client_id self = record { pubkey = self.their_pubkey }

  -- `write_message(…).unwrap()` panics on an error.
  unfoldable pub poll_write : EncryptedWriteStream → List ℕ → PollResult ℕ × EncryptedWriteStream
  poll_write self buf = elim (encrypt self.noise buf) [
    | none ↦ (poll_panic, self)
    | some (msg, noise) ↦
        let (r, sock) = poll (send msg) self.underlying in
        (poll_once r, record self { underlying = sock; noise = noise })
  ]
