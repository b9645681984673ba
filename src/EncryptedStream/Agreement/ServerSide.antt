-- ===== src/EncryptedStream/Agreement/ServerSide.antt =====
-- The server's end, message by message.
use hubtain.Common.{
  ℕ, ◌-◌, ◌+◌, ◌^◌, ◌≤◌, ◌<◌, ◌≡◌, refl, ap, ◌∙◌, true, false, List, [], ◌∷◌, ◌++◌, some, arith,
  length,
}
use hubtain.Stream.{Fut, ready, map_err, ◌>>=◌, Sock, value, error, poll}
use hubtain.Stream.Steps.{poll-write_enough, poll-read_short}
use hubtain.Framing.{recv}
use hubtain.Framing.RoundTrip.{frame}
use hubtain.Approval.{ClientApprover, interactive}
use hubtain.EncryptedStream.{Noise, Keypair, EncStreamErr, io_err, client_not_accepted, snow}
use hubtain.EncryptedStream.Server.{key_exchange, approve, expect}
use hubtain.EncryptedStream.Agreement.ClientSide.{poll-send_then, poll-recv_then}

module _ (n : Noise) (approver : ClientApprover) where
  open n use {Handshake, Transport}

  -- What is left of the exchange after the server's message is sent.
  pub after_second : Handshake → Fut EncStreamErr (Transport × List ℕ)
  unfolding approve
  after_second noise = do
    msg ← map_err io_err recv
    (payload, noise) ← snow (n.read_message noise msg)
    their_pubkey ← expect n (n.get_remote_static noise)
    approved ← approve n interactive approver their_pubkey
    transport ← snow (n.into_transport_mode noise)
    ready (transport, their_pubkey)

  pub server_second :
      (k : Keypair) (r₀ r₁ r₂ : Handshake) (p m m' rest : List ℕ) (s : Sock)
      → n.build_responder k.private ≡ some r₀
      → n.read_message r₀ m ≡ some (p, r₁)
      → n.write_message r₁ [] ≡ some (m', r₂)
      → length m < 2 ^ 16
      → s.inbox ≡ frame m ++ rest
      → s.broken ≡ false
      → 2 + length m' ≤ s.room
      → poll (key_exchange n (some k) interactive approver) s
        ≡ poll (after_second r₂) (record s {
          inbox = rest;
          outbox = s.outbox ++ frame m';
          room = s.room - (2 + length m');
        })
  unfolding key_exchange after_second
  server_second k r₀ r₁ r₂ p m m' rest s starts reads writes small e b h = rw starts (
      poll-recv_then n m rest _ s small e
      ∙ rw (reads, writes) (poll-send_then n m' (after_second r₂) (record s { inbox = rest }) b h))

  module _ (r₂ r₃ : Handshake) (p m rest pubkey : List ℕ) (s : Sock)
      (reads : n.read_message r₂ m ≡ some (p, r₃)) (remote : n.get_remote_static r₃ ≡ some pubkey)
      (small : length m < 2 ^ 16) (e : s.inbox ≡ frame m ++ rest) (b : s.broken ≡ false) where
    pub server_approves :
        (t : Transport)
        → approver (record { pubkey = pubkey }) ≡ some true
        → n.into_transport_mode r₃ ≡ some t
        → 1 ≤ s.room
        → poll (after_second r₂) s ≡ (
          value (t, pubkey),
          record s { inbox = rest; outbox = s.outbox ++ (1 ∷ []); room = s.room - 1 },
        )
    unfolding after_second
    server_approves t says ends h =
        poll-recv_then n m rest _ s small e
        ∙ rw
            (
              reads,
              remote,
              says,
              poll-write_enough (1 ∷ []) _ _ (record s { inbox = rest }) b h,
              ends,
            )
            (unfold poll in refl)

    pub server_rejects :
        approver (record { pubkey = pubkey }) ≡ some false
        → 1 ≤ s.room
        → poll (after_second r₂) s ≡ (
          error client_not_accepted,
          record s { inbox = rest; outbox = s.outbox ++ (0 ∷ []); room = s.room - 1 },
        )
    unfolding after_second
    server_rejects says h =
        poll-recv_then n m rest _ s small e
        ∙ rw (reads, remote, says, poll-write_enough (0 ∷ []) _ _ (record s { inbox = rest }) b h)
            (unfold poll in refl)

  pub after_second_waits :
      (r₂ : Handshake) (s : Sock)
      → s.inbox ≡ []
      → s.eof ≡ false
      → (poll (after_second r₂) s).1 ≡ record s { inbox = [] }
  unfolding after_second recv
  after_second_waits r₂ s e o = ap (λ r. r.1) (poll-read_short 2 _ _ s (rw e (omega arith)) o)
