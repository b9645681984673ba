-- ===== src/EncryptedStream/Agreement/ClientSide.antt =====
-- The client's end, message by message.
use hubtain.Common.{
  ℕ, ◌-◌, ◌+◌, ◌^◌, ◌≤◌, ◌<◌, ◌==◌, if◌then◌else◌, ◌≡◌, refl, ap, ◌∙◌, false, List, [], ◌∷◌, ◌++◌,
  some, arith, length,
}
use hubtain.Stream.{Fut, ready, fail, read_exact, map_err, ◌>>=◌, Sock, value, error, poll}
use hubtain.Stream.Bind.{poll->>=_value, poll-map_err_value}
use hubtain.Stream.Steps.{poll-read_enough, poll-read_short}
use hubtain.Framing.{recv, send}
use hubtain.Framing.RoundTrip.{frame, poll-recv, poll-send}
use hubtain.EncryptedStream.{Noise, Keypair, EncStreamErr, io_err, client_not_accepted, snow}
use hubtain.EncryptedStream.Client.{key_exchange, first_byte}

module _ (n : Noise) where
  open n use {Handshake, Transport}

  -- What is left of the exchange after the first message is sent, and after the third.
  pub after_first : Handshake → Fut EncStreamErr Transport
  after_first noise = do
    msg ← map_err io_err recv
    (payload, noise) ← snow (n.read_message noise msg)
    (s, noise) ← snow (n.write_message noise [])
    sent ← map_err io_err (send s)
    buff ← read_exact 1 io_err ready
    if first_byte buff == 1 then snow (n.into_transport_mode noise) else fail client_not_accepted

  pub after_third : Handshake → Fut EncStreamErr Transport
  after_third noise = do
    buff ← read_exact 1 io_err ready
    if first_byte buff == 1 then snow (n.into_transport_mode noise) else fail client_not_accepted

  -- A message of an exchange, sent with a future behind it.
  pub poll-send_then :
      {B : Type 0} (m : List ℕ) (k : Fut EncStreamErr B) (s : Sock)
      → s.broken ≡ false
      → 2 + length m ≤ s.room
      → poll (map_err io_err (send m) >>= λ sent. k) s
        ≡ poll k (record s { outbox = s.outbox ++ frame m; room = s.room - (2 + length m) })
  poll-send_then m k s b h =
      poll->>=_value (map_err io_err (send m)) (λ sent. k) s
        (poll-map_err_value io_err (send m) s (poll-send m s b h))

  pub poll-recv_then :
      {B : Type 0} (m rest : List ℕ) (k : List ℕ → Fut EncStreamErr B) (s : Sock)
      → length m < 2 ^ 16
      → s.inbox ≡ frame m ++ rest
      → poll (map_err io_err recv >>= k) s ≡ poll (k m) (record s { inbox = rest })
  poll-recv_then m rest k s h e =
      poll->>=_value (map_err io_err recv) k s
        (poll-map_err_value io_err recv s (poll-recv m rest s h e))

  pub client_first :
      (c : Keypair) (i₀ i₁ : Handshake) (m : List ℕ) (s : Sock)
      → n.build_initiator c.private ≡ some i₀
      → n.write_message i₀ [] ≡ some (m, i₁)
      → s.broken ≡ false
      → 2 + length m ≤ s.room
      → poll (key_exchange n (some c)) s
        ≡ poll
            (after_first i₁)
            (record s { outbox = s.outbox ++ frame m; room = s.room - (2 + length m) })
  unfolding key_exchange after_first
  client_first c i₀ i₁ m s starts writes b h =
      rw (starts, writes) (poll-send_then m (after_first i₁) s b h)

  -- The client's second message answers the server's.
  pub client_third :
      (i₁ i₂ i₃ : Handshake) (p m m' rest : List ℕ) (s : Sock)
      → n.read_message i₁ m ≡ some (p, i₂)
      → n.write_message i₂ [] ≡ some (m', i₃)
      → length m < 2 ^ 16
      → s.inbox ≡ frame m ++ rest
      → s.broken ≡ false
      → 2 + length m' ≤ s.room
      → poll (after_first i₁) s
        ≡ poll (after_third i₃) (record s {
          inbox = rest;
          outbox = s.outbox ++ frame m';
          room = s.room - (2 + length m');
        })
  unfolding after_first after_third
  client_third i₁ i₂ i₃ p m m' rest s reads writes small e b h =
      poll-recv_then m rest _ s small e
      ∙ rw (reads, writes) (poll-send_then m' (after_third i₃) (record s { inbox = rest }) b h)

  -- A verdict other than 1 ends the exchange with `ClientNotAccepted`.
  pub client_accepted :
      (i₃ : Handshake) (t : Transport) (rest : List ℕ) (s : Sock)
      → n.into_transport_mode i₃ ≡ some t
      → s.inbox ≡ 1 ∷ rest
      → poll (after_third i₃) s ≡ (value t, record s { inbox = rest })
  unfolding after_third
  client_accepted i₃ t rest s ends e =
      ap (λ (bs : List ℕ). poll (after_third i₃) (record s { inbox = bs })) e
      ∙ poll-read_enough 1 io_err _ (record s { inbox = 1 ∷ rest }) (omega arith)
      ∙ (unfold poll in rw ends)

  pub client_rejected :
      (i₃ : Handshake) (rest : List ℕ) (s : Sock)
      → s.inbox ≡ 0 ∷ rest
      → poll (after_third i₃) s ≡ (error client_not_accepted, record s { inbox = rest })
  unfolding after_third
  client_rejected i₃ rest s e =
      ap (λ (bs : List ℕ). poll (after_third i₃) (record s { inbox = bs })) e
      ∙ poll-read_enough 1 io_err _ (record s { inbox = 0 ∷ rest }) (omega arith)
      ∙ (unfold poll in refl)

  -- Without input the client waits, and has written nothing.
  pub after_first_waits :
      (i₁ : Handshake) (s : Sock)
      → s.inbox ≡ []
      → s.eof ≡ false
      → (poll (after_first i₁) s).1 ≡ record s { inbox = [] }
  unfolding after_first recv
  after_first_waits i₁ s e o = ap (λ r. r.1) (poll-read_short 2 _ _ s (rw e (omega arith)) o)

  pub after_third_waits :
      (i₃ : Handshake) (s : Sock)
      → s.inbox ≡ []
      → s.eof ≡ false
      → (poll (after_third i₃) s).1 ≡ record s { inbox = [] }
  unfolding after_third
  after_third_waits i₃ s e o = ap (λ r. r.1) (poll-read_short 1 _ _ s (rw e (omega arith)) o)
