-- ===== src/Session/ClientTurns.antt =====
-- A session at the client's end, turn by turn.
use hubtain.Common.{
  ℕ, ◌-◌, ◌+◌, ◌≤◌, ◌<◌, ◌≡◌, refl, sym, ap, ◌∙◌, true, false, List, [], ◌∷◌, ◌++◌, append-nil,
  append_assoc, Option, some, arith, length,
}
use hubtain.Stream.{Sock, Poll, poll, arrive}
use hubtain.Stream.Link.{fresh, arrival}
use hubtain.Stream.Rounds.{once, twice}
use hubtain.Framing.RoundTrip.{frame}
use hubtain.Approval.{ClientApprover}
use hubtain.Models.{DataSrvInfo, Bincode, BincodeLaws}
use hubtain.Models.Info.{info_wire}
use hubtain.EncryptedStream.{Noise, TransportLaws, Keypair, EncStreamErr}
use hubtain.EncryptedStream.Client
use hubtain.EncryptedStream.Agreement.{Exchange}
use hubtain.EncryptedStream.Agreement.ClientSide.{
  client_first, after_third, after_first_waits, after_third_waits,
}
use hubtain.EncryptedStream.Agreement.Rounds.{client_end, third_poll}
use hubtain.Session.{handshake_err, client_session}
use hubtain.Session.Ends.{in_session, in_session_sock, in_session_result, poll-client_session}

module _ (code : Bincode DataSrvInfo) (codes : BincodeLaws code) (n : Noise)
    (laws : TransportLaws n) (c k : Keypair) (x : Exchange n laws c k) (approver : ClientApprover)
    (room : ℕ) (enough : 7 + length x.m₁ + length x.m₂ + length x.m₃ ≤ room) (info : DataSrvInfo)
    (bytes : List ℕ) (ser : code.serialize info ≡ some bytes) (small : length bytes < 256)
    (enc : info.encrypted ≡ true) where
  open n use {Transport}

  abbrev wire : List ℕ
  wire = info_wire code bytes

  -- The client on a socket with the info and what came behind it.
  client_poll :
      (rest : List ℕ) (s : Sock)
      → s.inbox ≡ wire ++ rest
      → poll (client_session code n (some c)) s
        ≡ in_session
            (handshake_err info)
            (λ t. (info, some t))
            (poll (Client.key_exchange n (some c)) (record s { inbox = rest }))
  client_poll rest s came =
      poll-client_session code n codes (some c) info bytes rest s ser small enc came

  -- What the client has written once the info has come, and once the server's message has.
  pub says₂ : (poll (client_session code n (some c)) (once room wire)).1.outbox ≡ frame x.m₁
  says₂ =
      ap (λ r. r.1.outbox) (client_poll [] (once room wire) (sym (append-nil wire)))
      ∙ ap (λ (s : Sock). s.outbox)
          (in_session_sock (handshake_err info) (λ t. (info, some t))
            (poll (Client.key_exchange n (some c)) (record (once room wire) { inbox = [] })))
      ∙ ap (λ r. r.1.outbox)
          (client_first n c x.i₀ x.i₁ x.m₁ (record (once room wire) { inbox = [] }) x.initiates
            x.writes₁ refl (omega arith))
      ∙ ap (λ (s : Sock). s.outbox) (after_first_waits n x.i₁ _ refl refl)

  third :
      (s : Sock) (rest : List ℕ)
      → s.inbox ≡ frame x.m₂ ++ rest
      → s.broken ≡ false
      → s.outbox ≡ []
      → room ≤ s.room
      → poll (Client.key_exchange n (some c)) s
        ≡ poll (after_third n x.i₃) (record s {
          inbox = rest;
          outbox = frame x.m₁ ++ frame x.m₃;
          room = s.room - (2 + length x.m₁) - (2 + length x.m₃);
        })
  unfolding client_end
  third s rest came b o h = third_poll n laws c k x approver room enough s rest came b o h

  pub says₃ :
      (poll (client_session code n (some c)) (twice room wire (frame x.m₂))).1.outbox
      ≡ frame x.m₁ ++ frame x.m₃
  says₃ =
      ap (λ r. r.1.outbox) (client_poll (frame x.m₂) (twice room wire (frame x.m₂)) refl)
      ∙ ap (λ (s : Sock). s.outbox)
          (in_session_sock (handshake_err info) (λ t. (info, some t))
            (poll (Client.key_exchange n (some c))
              (record (twice room wire (frame x.m₂)) { inbox = frame x.m₂ })))
      ∙ ap (λ r. r.1.outbox)
          (third (record (twice room wire (frame x.m₂)) { inbox = frame x.m₂ }) []
            (sym (append-nil _)) refl refl (omega arith))
      ∙ ap (λ (s : Sock). s.outbox) (after_third_waits n x.i₃ _ refl refl)

  -- How the client ends at the verdict, with nothing left to read.
  pub client_last :
      (b : ℕ) (client : Poll EncStreamErr Transport)
      → ((s : Sock)
          → s.inbox ≡ b ∷ []
          → poll (after_third n x.i₃) s ≡ (client, record s { inbox = [] }))
      → let r =
          poll
            (client_session code n (some c))
            (arrive (twice room wire (frame x.m₂)) (arrival (b ∷ []))) in
        (r.0 ≡ (in_session (handshake_err info) (λ t. (info, some t)) (client, fresh 0)).0)
        × (r.1.inbox ≡ [])
  client_last b client verdict =
      let last = arrive (twice room wire (frame x.m₂)) (arrival (b ∷ [])) in
      let polled =
        client_poll (frame x.m₂ ++ (b ∷ [])) last (append_assoc wire (frame x.m₂) (b ∷ [])) in
      let exchanged =
        third (record last { inbox = frame x.m₂ ++ (b ∷ []) }) (b ∷ []) refl refl refl (omega arith)
        ∙ verdict _ refl in
      (
        ap (λ r. r.0) polled
            ∙ in_session_result (handshake_err info) (λ t. (info, some t)) _ client (fresh 0)
                (ap (λ r. r.0) exchanged),
        ap (λ r. r.1.inbox) polled
            ∙ ap (λ (s : Sock). s.inbox)
                (in_session_sock {B = DataSrvInfo × Option Transport} (handshake_err info)
                  (λ t. (info, some t))
                  (poll (Client.key_exchange n (some c))
                    (record last { inbox = frame x.m₂ ++ (b ∷ []) })))
            ∙ ap (λ r. r.1.inbox) exchanged,
      )
