-- ===== src/EncryptedStream/Agreement/Rounds.antt =====
-- The exchange over a connection, round by round.
use hubtain.Common.{
  ℕ, ◌-◌, ◌+◌, ◌≤◌, ◌≡◌, refl, sym, ap, ◌∙◌, true, false, List, [], ◌∷◌, ◌++◌, append-nil, some,
  arith, length,
}
use hubtain.Stream.{Fut, Sock, Poll, value, error, poll}
use hubtain.Stream.Link.{fresh, start, rounds}
use hubtain.Stream.Rounds.{once, twice, two_rounds}
use hubtain.Framing.RoundTrip.{frame}
use hubtain.Approval.{ClientApprover, interactive}
use hubtain.EncryptedStream.{Noise, TransportLaws, Keypair, EncStreamErr, client_not_accepted}
use hubtain.EncryptedStream.Client
use hubtain.EncryptedStream.Server
use hubtain.EncryptedStream.Agreement.{Exchange}
use hubtain.EncryptedStream.Agreement.ClientSide.{
  client_first, client_third, client_accepted, client_rejected, after_third, after_first_waits,
  after_third_waits,
}
use hubtain.EncryptedStream.Agreement.ServerSide.{
  after_second, server_second, server_approves, server_rejects, after_second_waits,
}

module _ (n : Noise) (laws : TransportLaws n) (c k : Keypair) (x : Exchange n laws c k)
    (approver : ClientApprover) (room : ℕ)
    (enough : 7 + length x.m₁ + length x.m₂ + length x.m₃ ≤ room) where
  open n use {Transport}

  unfoldable pub client_end : Fut EncStreamErr Transport
  client_end = Client.key_exchange n (some c)

  server_end : Fut EncStreamErr (Transport × List ℕ)
  server_end = Server.key_exchange n (some k) interactive approver

  first_out : (poll client_end (fresh room)).1.outbox ≡ frame x.m₁
  unfolding client_end
  first_out =
      ap (λ r. r.1.outbox)
        (client_first n c x.i₀ x.i₁ x.m₁ (fresh room) x.initiates x.writes₁ refl (omega arith))
      ∙ ap (λ (s : Sock). s.outbox) (after_first_waits n x.i₁ _ refl refl)

  second_out : (poll server_end (once room (frame x.m₁))).1.outbox ≡ frame x.m₂
  unfolding server_end
  second_out =
      ap (λ r. r.1.outbox)
        (server_second n approver k x.r₀ x.r₁ x.r₂ [] x.m₁ x.m₂ [] (once room (frame x.m₁))
          x.responds x.reads₁ x.writes₂ x.small₁ (sym (append-nil _)) refl (omega arith))
      ∙ ap (λ (s : Sock). s.outbox) (after_second_waits n approver x.r₂ _ refl refl)

  -- The client on a socket with the server's message.
  pub third_poll :
      (s : Sock) (rest : List ℕ)
      → s.inbox ≡ frame x.m₂ ++ rest
      → s.broken ≡ false
      → s.outbox ≡ []
      → room ≤ s.room
      → poll client_end s
        ≡ poll (after_third n x.i₃) (record s {
          inbox = rest;
          outbox = frame x.m₁ ++ frame x.m₃;
          room = s.room - (2 + length x.m₁) - (2 + length x.m₃);
        })
  unfolding client_end
  third_poll s rest e b o h =
      client_first n c x.i₀ x.i₁ x.m₁ s x.initiates x.writes₁ b (omega arith)
      ∙ client_third n x.i₁ x.i₂ x.i₃ [] x.m₂ x.m₃ rest _ x.reads₂ x.writes₃ x.small₂ e b
          (omega arith)
      ∙ λ i. poll (after_third n x.i₃) (record s {
        inbox = rest;
        outbox = (o i ++ frame x.m₁) ++ frame x.m₃;
        room = s.room - (2 + length x.m₁) - (2 + length x.m₃);
      })

  third_out : (poll client_end (once room (frame x.m₂))).1.outbox ≡ frame x.m₁ ++ frame x.m₃
  third_out =
      ap (λ r. r.1.outbox)
        (third_poll (once room (frame x.m₂)) [] (sym (append-nil _)) refl refl (omega arith))
      ∙ ap (λ (s : Sock). s.outbox) (after_third_waits n x.i₃ _ refl refl)

  -- The server on a socket with both of the client's messages.
  fourth_sock : Sock
  fourth_sock = record (twice room (frame x.m₁) (frame x.m₃)) {
    inbox = frame x.m₃;
    outbox = frame x.m₂;
    room = room + 0 + 0 - (2 + length x.m₂);
  }

  fourth_poll :
      poll server_end (twice room (frame x.m₁) (frame x.m₃))
      ≡ poll (after_second n approver x.r₂) fourth_sock
  unfolding server_end fourth_sock
  fourth_poll =
      server_second n approver k x.r₀ x.r₁ x.r₂ [] x.m₁ x.m₂ (frame x.m₃)
        (twice room (frame x.m₁) (frame x.m₃)) x.responds x.reads₁ x.writes₂ x.small₁ refl refl
        (omega arith)

  outcome :
      (b : ℕ) (client : Poll EncStreamErr Transport)
      (server : Poll EncStreamErr (Transport × List ℕ))
      → ((s : Sock) → s.inbox ≡ b ∷ [] → (poll (after_third n x.i₃) s).0 ≡ client)
      → poll (after_second n approver x.r₂) fourth_sock ≡ (
        server,
        record fourth_sock {
          inbox = [];
          outbox = frame x.m₂ ++ (b ∷ []);
          room = fourth_sock.room - 1;
        },
      )
      → let l = rounds 2 (start client_end server_end room) in
        (l.client.0 ≡ client) × (l.server.0 ≡ server)
  outcome b client server verdict ends =
      let (at_client, at_server) =
        two_rounds client_end server_end room (frame x.m₁) (frame x.m₃) (frame x.m₂) (b ∷ [])
          first_out second_out third_out (ap (λ r. r.1.outbox) (fourth_poll ∙ ends)) in
      (
        ap (λ r. r.0)
              (at_client
                ∙ third_poll (twice room (frame x.m₂) (b ∷ [])) (b ∷ []) refl refl refl
                    (omega arith))
            ∙ verdict _ refl,
        ap (λ r. r.0) (at_server ∙ fourth_poll ∙ ends),
      )

  -- On an open connection with room for the messages, and for keys for which the noise pattern runs
  -- as documented, a client that the approver accepts and the server both end the exchange in two
  -- rounds: with transports that are peers, and on the server with the client's public key.
  key_exchange-approved :
      approver (record { pubkey = c.public }) ≡ some true
      → let l = rounds 2 (
          start
            (Client.key_exchange n (some c))
            (Server.key_exchange n (some k) interactive approver)
            room) in
        (l.client.0 ≡ value x.client_transport)
        × (l.server.0 ≡ value (x.server_transport, c.public))
        × laws.Paired x.server_transport x.client_transport
  unfolding client_end server_end fourth_sock
  key_exchange-approved says =
      let (client, server) =
        outcome 1 (value x.client_transport) (value (x.server_transport, c.public))
          (λ s e. ap (λ r. r.0) (client_accepted n x.i₃ x.client_transport [] s x.client_ends e))
          (server_approves n approver x.r₂ x.r₃ [] x.m₃ [] c.public fourth_sock x.reads₃ x.remote
            x.small₃ (sym (append-nil _)) refl x.server_transport says x.server_ends
            (omega arith)) in
      (client, server, x.peers)

  -- Under the same conditions, if the approver turns the client down, both ends of the exchange fail
  -- with `ClientNotAccepted` after two rounds.
  key_exchange-rejected :
      approver (record { pubkey = c.public }) ≡ some false
      → let l = rounds 2 (
          start
            (Client.key_exchange n (some c))
            (Server.key_exchange n (some k) interactive approver)
            room) in
        (l.client.0 ≡ error client_not_accepted) × (l.server.0 ≡ error client_not_accepted)
  unfolding client_end server_end fourth_sock
  key_exchange-rejected says =
      outcome 0 (error client_not_accepted) (error client_not_accepted)
        (λ s e. ap (λ r. r.0) (client_rejected n x.i₃ [] s e))
        (server_rejects n approver x.r₂ x.r₃ [] x.m₃ [] c.public fourth_sock x.reads₃ x.remote
          x.small₃ (sym (append-nil _)) refl says (omega arith))
