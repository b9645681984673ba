-- ===== src/Session/Rounds.antt =====
-- A session over a connection, round by round.
use hubtain.Common.{
  ℕ, suc, ◌-◌, ◌+◌, ◌≤◌, ◌<◌, ◌≡◌, refl, sym, ap, ◌∙◌, true, false, List, [], ◌∷◌, ◌++◌, append-nil,
  Option, some, arith, length,
}
use hubtain.Stream.{Fut, Sock, Poll, value, error, poll, arrive}
use hubtain.Stream.Link.{fresh, arrival, start, rounds}
use hubtain.Stream.Rounds.{once, twice}
use hubtain.Stream.Dialogue.{start-At, round-At}
use hubtain.Framing.RoundTrip.{frame}
use hubtain.Approval.{ClientApprover, interactive}
use hubtain.Models.{DataSrvInfo, Bincode, BincodeLaws}
use hubtain.Models.Info.{info_wire, write_to_stream_all}
use hubtain.EncryptedStream.{Noise, TransportLaws, Keypair, EncStreamErr, client_not_accepted}
use hubtain.EncryptedStream.Server
use hubtain.EncryptedStream.Agreement.{Exchange}
use hubtain.EncryptedStream.Agreement.ClientSide.{client_accepted, client_rejected, after_third}
use hubtain.EncryptedStream.Agreement.ServerSide.{
  after_second, server_second, server_approves, server_rejects, after_second_waits,
}
use hubtain.Serve.Data.{ServerData, ephemeral, is_encrypted, data_info}
use hubtain.Session.{
  handshake_err, SessionErr, enc_err, client_session, server_session, copies, turned_down, task_end,
}
use hubtain.Session.ClientTurns
use hubtain.Session.Ends.{
  in_session, in_session_sock, in_session_result, client_session_waits, poll-server_session,
  server_waits,
}

module _ (code : Bincode DataSrvInfo) (codes : BincodeLaws code) (n : Noise)
    (laws : TransportLaws n) (c k : Keypair) (x : Exchange n laws c k) (approver : ClientApprover)
    (room : ℕ) (self : ServerData) (port accepts₁ accepts₂ : ℕ) (bytes : List ℕ)
    (enc : self.enctype ≡ ephemeral) (ser : code.serialize (data_info port self) ≡ some bytes)
    (small : length bytes < 256) (all₁ : 1 ≤ accepts₁) (all₂ : length bytes ≤ accepts₂)
    (enough : 8 + length bytes + length x.m₁ + length x.m₂ + length x.m₃ ≤ room) where
  open n use {Transport}

  client_side : Fut SessionErr (DataSrvInfo × Option Transport)
  client_side = client_session code n (some c)

  server_side : Fut SessionErr (Option (Transport × List ℕ))
  server_side = server_session code n accepts₁ accepts₂ port self (some k) interactive approver

  abbrev wire : List ℕ
  wire = info_wire code bytes

  server_poll :
      (s : Sock)
      → s.broken ≡ false
      → suc (length bytes) ≤ s.room
      → poll server_side s
        ≡ in_session enc_err
            (λ t. some t)
            (poll
              (Server.key_exchange n (some k) interactive approver)
              (record s { outbox = s.outbox ++ wire; room = s.room - (suc (length bytes)) }))
  unfolding server_side
  server_poll s b h =
      poll-server_session code n accepts₁ accepts₂ port self (some k) approver
        (info_wire code bytes) s
        (write_to_stream_all code (data_info port self) bytes accepts₁ accepts₂ ser all₁ all₂) enc b
        h

  -- The sockets of the server.
  abbrev s₁ : Sock
  s₁ = arrive (fresh room) (arrival [])

  abbrev s₂ : Sock
  s₂ = arrive s₁ (arrival (frame x.m₁))

  abbrev s₃ : Sock
  s₃ = arrive s₂ (arrival (frame x.m₃))

  -- The server's socket once the info is written.
  abbrev told : Sock → Sock
  told s = record s { outbox = wire; room = s.room - (suc (length bytes)) }

  info_encrypted : (data_info port self).encrypted ≡ true
  unfolding data_info
  info_encrypted = ap is_encrypted enc

  says₂ : (poll client_side (once room wire)).1.outbox ≡ frame x.m₁
  unfolding client_side
  says₂ =
      ClientTurns.says₂ code codes n laws c k x approver room (omega arith) (data_info port self)
        bytes ser small info_encrypted

  says₃ : (poll client_side (twice room wire (frame x.m₂))).1.outbox ≡ frame x.m₁ ++ frame x.m₃
  unfolding client_side
  says₃ =
      ClientTurns.says₃ code codes n laws c k x approver room (omega arith) (data_info port self)
        bytes ser small info_encrypted

  says₁ : (poll client_side (fresh room)).1.outbox ≡ []
  unfolding client_side
  says₁ = client_session_waits code n (some c) (fresh room) refl refl

  answers₁ : (poll server_side s₁).1.outbox ≡ wire
  answers₁ =
      ap (λ r. r.1.outbox) (server_poll s₁ refl (omega arith))
      ∙ ap (λ (s : Sock). s.outbox)
          (in_session_sock enc_err (λ t. some t)
              (poll (Server.key_exchange n (some k) interactive approver) (told s₁))
            ∙ server_waits code n approver k x.r₀ (told s₁) x.responds refl refl)

  -- The server's key exchange once the first message has come, with what came behind it.
  second_poll :
      (s : Sock) (rest : List ℕ)
      → s.inbox ≡ frame x.m₁ ++ rest
      → s.broken ≡ false
      → 2 + length x.m₂ ≤ s.room
      → poll (Server.key_exchange n (some k) interactive approver) s
        ≡ poll (after_second n approver x.r₂) (record s {
          inbox = rest;
          outbox = s.outbox ++ frame x.m₂;
          room = s.room - (2 + length x.m₂);
        })
  second_poll s rest came b h =
      server_second n approver k x.r₀ x.r₁ x.r₂ [] x.m₁ x.m₂ rest s x.responds x.reads₁ x.writes₂
        x.small₁ came b h

  answers₂ : (poll server_side s₂).1.outbox ≡ wire ++ frame x.m₂
  answers₂ =
      ap (λ r. r.1.outbox) (server_poll s₂ refl (omega arith))
      ∙ ap (λ (s : Sock). s.outbox)
          (in_session_sock enc_err (λ t. some t)
            (poll (Server.key_exchange n (some k) interactive approver) (told s₂)))
      ∙ ap (λ r. r.1.outbox) (second_poll (told s₂) [] (sym (append-nil _)) refl (omega arith))
      ∙ ap (λ (s : Sock). s.outbox) (after_second_waits n approver x.r₂ _ refl refl)

  -- The server's socket before the third message.
  abbrev at_third : Sock
  at_third = record (told s₃) {
    inbox = frame x.m₃;
    outbox = wire ++ frame x.m₂;
    room = room + 0 + 0 + 0 - (suc (length bytes)) - (2 + length x.m₂);
  }

  -- And behind the verdict.
  abbrev at_end : ℕ → Sock
  at_end b = record at_third {
    inbox = [];
    outbox = (wire ++ frame x.m₂) ++ (b ∷ []);
    room = at_third.room - 1;
  }

  outcome :
      (b : ℕ) (client : Poll EncStreamErr Transport)
      (server : Poll EncStreamErr (Transport × List ℕ))
      → ((s : Sock)
          → s.inbox ≡ b ∷ []
          → poll (after_third n x.i₃) s ≡ (client, record s { inbox = [] }))
      → poll (after_second n approver x.r₂) at_third ≡ (server, at_end b)
      → let l = rounds 3 (start client_side server_side room) in
        (l.client.0
          ≡ (in_session
              (handshake_err (data_info port self))
              (λ t. (data_info port self, some t))
              (client, fresh 0)).0)
        × (l.server.0 ≡ (in_session enc_err (λ t. some t) (server, fresh 0)).0)
        × (l.server.1 ≡ at_end b)
        × (l.client.1.inbox ≡ [])
  outcome b client server verdict ends =
      let l₀ = start client_side server_side room in
      let at₁ =
        round-At client_side server_side l₀ (fresh room) (fresh room) [] [] [] wire
          (start-At client_side server_side room) refl refl says₁ answers₁ in
      let at₂ =
        round-At client_side server_side _ (once room wire) s₁ [] wire (frame x.m₁) (frame x.m₂) at₁
          refl refl says₂ answers₂ in
      let fourth =
        server_poll s₃ refl (omega arith)
        ∙ ap (in_session enc_err (λ t. some t))
            (second_poll (told s₃) (frame x.m₃) refl refl (omega arith) ∙ ends) in
      let answers₃ : (poll server_side s₃).1.outbox ≡ (wire ++ frame x.m₂) ++ (b ∷ []) =
        ap (λ r. r.1.outbox) fourth
        ∙ ap (λ (s : Sock). s.outbox) (in_session_sock enc_err (λ t. some t) (server, _)) in
      let (last, nothing_left) =
        ClientTurns.client_last code codes n laws c k x approver room (omega arith)
          (data_info port self) bytes ser small info_encrypted b client verdict in
      let at₃ =
        round-At client_side server_side _ (twice room wire (frame x.m₂)) s₂ (frame x.m₁)
          (wire ++ frame x.m₂) (frame x.m₃) (b ∷ []) at₂ refl refl says₃ answers₃ in
      (
        unfold rounds client_side in ap (λ r. r.0) at₃.client ∙ last,
        unfold rounds in
            ap (λ r. r.0) (at₃.server ∙ fourth)
            ∙ in_session_result enc_err (λ t. some t) (server, _) server (fresh 0) refl,
        unfold rounds in
            ap (λ r. r.1) (at₃.server ∙ fourth) ∙ in_session_sock enc_err (λ t. some t) (server, _),
        unfold rounds client_side in ap (λ r. r.1.inbox) at₃.client ∙ nothing_left,
      )

  accepted :
      approver (record { pubkey = c.public }) ≡ some true
      → let l = rounds 3 (start client_side server_side room) in
        (l.client.0 ≡ value (data_info port self, some x.client_transport))
        × (l.server.0 ≡ value (some (x.server_transport, c.public)))
        × (l.server.1 ≡ at_end 1)
        × (l.client.1.inbox ≡ [])
  accepted says =
      outcome 1 (value x.client_transport) (value (x.server_transport, c.public))
        (λ s e. client_accepted n x.i₃ x.client_transport [] s x.client_ends e)
        (server_approves n approver x.r₂ x.r₃ [] x.m₃ [] c.public at_third x.reads₃ x.remote
          x.small₃ (sym (append-nil _)) refl x.server_transport says x.server_ends (omega arith))

  -- The socket that the server has for the copy; and the client has read all that came.
  pub approved_socket :
      approver (record { pubkey = c.public }) ≡ some true
      → let l = rounds 3 (
          start
            (client_session code n (some c))
            (server_session code n accepts₁ accepts₂ port self (some k) interactive approver)
            room) in
        (l.server.1.broken ≡ false)
        × (room ≤ l.server.1.room + (4 + length bytes + length x.m₂))
        × (l.client.1.inbox ≡ [])
  unfolding client_side server_side
  approved_socket says =
      let (client, server, sock, nothing_left) = accepted says in
      (
        ap (λ (s : Sock). s.broken) sock,
        (let r = ap (λ (s : Sock). s.room) sock in omega (arith, r)),
        nothing_left,
      )

  -- A client that the approver accepts and a server with an encrypted file, on an open connection with
  -- room for what they send, with keys for which the noise pattern runs as documented, and with an
  -- info of less than 256 bytes that the two writes take whole: after three rounds the client has the
  -- server's info and a transport, and the server's task is at the copy, with the transport that is
  -- the client's peer and with the client's public key.
  pub session-approved :
      approver (record { pubkey = c.public }) ≡ some true
      → let l = rounds 3 (
          start
            (client_session code n (some c))
            (server_session code n accepts₁ accepts₂ port self (some k) interactive approver)
            room) in
        (l.client.0 ≡ value (data_info port self, some x.client_transport))
        × (task_end l.server.0 ≡ copies (some (x.server_transport, c.public)))
        × laws.Paired x.server_transport x.client_transport
  unfolding client_side server_side
  session-approved says =
      let (client, server, sock, nothing_left) = accepted says in
      (client, ap task_end server, x.peers)

  -- A client that the approver turns down and a server with an encrypted file, on an open connection
  -- with room for what they send, with keys for which the noise pattern runs as documented, and with
  -- an info of less than 256 bytes that the two writes take whole: after three rounds the client has
  -- failed with `ClientNotAccepted`, and the server's task has ended without an error and before the
  -- copy.
  pub session-turned_down :
      approver (record { pubkey = c.public }) ≡ some false
      → let l = rounds 3 (
          start
            (client_session code n (some c))
            (server_session code n accepts₁ accepts₂ port self (some k) interactive approver)
            room) in
        (l.client.0 ≡ error (handshake_err (data_info port self) client_not_accepted))
        × (task_end l.server.0 ≡ turned_down)
  unfolding client_side server_side
  session-turned_down says =
      let (client, server, sock, nothing_left) =
        outcome 0 (error client_not_accepted) (error client_not_accepted)
          (λ s e. client_rejected n x.i₃ [] s e)
          (server_rejects n approver x.r₂ x.r₃ [] x.m₃ [] c.public at_third x.reads₃ x.remote
            x.small₃ (sym (append-nil _)) refl says (omega arith)) in
      (client, ap task_end server)
