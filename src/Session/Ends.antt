-- ===== src/Session/Ends.antt =====
-- A session at each end: the info, and then the key exchange on what is left of the socket.
use hubtain.Common.{
  ℕ, ◌-◌, ◌≤◌, ◌<◌, ◌≡◌, refl, ap, ◌∙◌, true, false, List, ◌++◌, Option, some, length, [], arith,
}
use hubtain.Stream.{Fut, Sock, Poll, value, error, panic, pending, ready, poll, map_err, ◌>>=◌}
use hubtain.Stream.Bind.{
  then_poll, map_poll, poll->>=, poll->>=_value, poll-map_err, poll-map_err_value,
}
use hubtain.Stream.Steps.{poll-write_enough, poll-read_short}
use hubtain.Approval.{interactive, ClientApprover}
use hubtain.Models.{DataSrvInfo, Bincode, BincodeLaws, read_from_stream, write_to_stream}
use hubtain.Models.Info.{info_wire, read_from_stream_all, read_from_stream_waits}
use hubtain.Framing.{recv}
use hubtain.EncryptedStream.{Noise, Keypair, EncStreamErr}
use hubtain.EncryptedStream.Client
use hubtain.EncryptedStream.Server
use hubtain.Serve.Data.{ServerData, ephemeral, data_info}
use hubtain.Session.{
  SessionErr, info_err, handshake_err, enc_err, client_stream, client_session, server_session,
}

-- A key exchange, with what the session makes of its result.
abbrev pub in_session :
    {A B : Type 0}
    → (EncStreamErr → SessionErr)
    → (A → B)
    → Poll EncStreamErr A × Sock
    → Poll SessionErr B × Sock
in_session w f (value a, s) = (value (f a), s)
in_session w f (error e, s) = (error (w e), s)
in_session w f (panic, s) = (panic, s)
in_session w f (pending g, s) = (pending (map_err w g >>= λ a. ready (f a)), s)

pub in_session_sock :
    {A B : Type 0} (w : EncStreamErr → SessionErr) (f : A → B) (r : Poll EncStreamErr A × Sock)
    → (in_session w f r).1 ≡ r.1
in_session_sock w f (value a, s) = refl
in_session_sock w f (error e, s) = refl
in_session_sock w f (panic, s) = refl
in_session_sock w f (pending g, s) = refl

-- The result does not depend on the socket.
pub in_session_result :
    {A B : Type 0} (w : EncStreamErr → SessionErr) (f : A → B) (r : Poll EncStreamErr A × Sock)
    (p : Poll EncStreamErr A) (s : Sock)
    → r.0 ≡ p
    → (in_session w f r).0 ≡ (in_session w f (p, s)).0
in_session_result w f (value a, t) p s e = ap (λ q. (in_session w f (q, s)).0) e
in_session_result w f (error x, t) p s e = ap (λ q. (in_session w f (q, s)).0) e
in_session_result w f (panic, t) p s e = ap (λ q. (in_session w f (q, s)).0) e
in_session_result w f (pending g, t) p s e = ap (λ q. (in_session w f (q, s)).0) e

poll-in_session :
    {A B : Type 0} (w : EncStreamErr → SessionErr) (f : A → B) (m : Fut EncStreamErr A) (s : Sock)
    → poll (map_err w m >>= λ a. ready (f a)) s ≡ in_session w f (poll m s)
poll-in_session w f m s =
    poll->>= (map_err w m) (λ a. ready (f a)) s
    ∙ ap (λ r. then_poll r (λ a. ready (f a))) (poll-map_err w m s)
    ∙ cases (poll m s)
  where
    cases :
        (r : Poll EncStreamErr _ × Sock)
        → then_poll (map_poll w r.0, r.1) (λ a. ready (f a)) ≡ in_session w f r
    cases (value a, s) = unfold poll in refl
    cases (error e, s) = refl
    cases (panic, s) = refl
    cases (pending g, s) = refl

module _ (code : Bincode DataSrvInfo) (n : Noise) where
  pub poll-client_session :
      (laws : BincodeLaws code) (generated : Option Keypair) (info : DataSrvInfo)
      (bytes rest : List ℕ) (s : Sock)
      → code.serialize info ≡ some bytes
      → length bytes < 256
      → info.encrypted ≡ true
      → s.inbox ≡ info_wire code bytes ++ rest
      → poll (client_session code n generated) s
        ≡ in_session
            (handshake_err info)
            (λ t. (info, some t))
            (poll (Client.key_exchange n generated) (record s { inbox = rest }))
  unfolding client_session client_stream
  poll-client_session laws generated info bytes rest s e small enc came =
      ap (λ (bs : List ℕ). poll (client_session code n generated) (record s { inbox = bs })) came
      ∙ poll->>=_value (map_err info_err (read_from_stream code)) (client_stream code n generated)
          (record s { inbox = info_wire code bytes ++ rest })
          (poll-map_err_value info_err (read_from_stream code)
            (record s { inbox = info_wire code bytes ++ rest })
            (read_from_stream_all code laws info bytes rest s e small))
      ∙ simp enc (
          poll-in_session (handshake_err info) (λ t. (info, some t))
            (Client.key_exchange n generated) (record s { inbox = rest }))

  -- A client without input waits, and has written nothing.
  pub client_session_waits :
      (generated : Option Keypair) (s : Sock)
      → s.inbox ≡ []
      → s.eof ≡ false
      → (poll (client_session code n generated) s).1.outbox ≡ s.outbox
  unfolding client_session
  client_session_waits generated s e o =
      let (g, waits) = read_from_stream_waits code s e o in
      let next = client_stream code n generated in
      ap (λ r. r.1.outbox)
        (poll->>= (map_err info_err (read_from_stream code)) next s
          ∙ ap (λ r. then_poll r next)
              (poll-map_err info_err (read_from_stream code) s
                ∙ ap (λ r. (map_poll info_err r.0, r.1)) waits))

  -- A server that waits for the client's first message of the key exchange.
  pub server_waits :
      (approver : ClientApprover) (k : Keypair) (r₀ : n.Handshake) (s : Sock)
      → n.build_responder k.private ≡ some r₀
      → s.inbox ≡ []
      → s.eof ≡ false
      → (poll (Server.key_exchange n (some k) interactive approver) s).1 ≡ record s { inbox = [] }
  unfolding Server.key_exchange recv
  server_waits approver k r₀ s starts e o =
      rw starts (ap (λ r. r.1) (poll-read_short 2 _ _ s (rw e (omega arith)) o))

  pub poll-server_session :
      (accepts₁ accepts₂ port : ℕ) (self : ServerData) (generated : Option Keypair)
      (approver : ClientApprover) (wire : List ℕ) (s : Sock)
      → write_to_stream accepts₁ accepts₂ code (data_info port self) ≡ some wire
      → self.enctype ≡ ephemeral
      → s.broken ≡ false
      → length wire ≤ s.room
      → poll (server_session code n accepts₁ accepts₂ port self generated interactive approver) s
        ≡ in_session enc_err
            (λ t. some t)
            (poll
              (Server.key_exchange n generated interactive approver)
              (record s { outbox = s.outbox ++ wire; room = s.room - length wire }))
  unfolding server_session
  poll-server_session accepts₁ accepts₂ port self generated approver wire s sent enc b h =
      rw (sent, enc)
        (poll-write_enough wire _ _ s b h
          ∙ poll-in_session enc_err (λ t. some t)
              (Server.key_exchange n generated interactive approver)
              (record s { outbox = s.outbox ++ wire; room = s.room - length wire }))
