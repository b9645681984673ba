-- ===== src/Framing/RoundTrip.antt =====
-- What `send` puts on the wire, and how `recv` takes it off.
use hubtain.Common.{
  ℕ, ◌-◌, ◌+◌, ◌%◌, ◌^◌, ◌≤◌, ◌<◌, ◌≡◌, List, ◌++◌, arith, false, sym, ap, ◌∙◌, length, take, drop,
  length-append, append_assoc, take-append_length, drop-append_length,
}
use hubtain.Stream.{IoKind, ready, read_exact, Sock, value, poll}
use hubtain.Stream.Steps.{poll-read_enough, poll-write_enough}
use hubtain.Framing.{to_be_bytes, from_be_bytes, recv, send, io}

-- A message as it stands on the wire.
abbrev pub frame : List ℕ → List ℕ
frame m = to_be_bytes (length m % 2 ^ 16) ++ m

-- `send` writes one frame, whole, where the socket has the room for it.
pub poll-send :
    (m : List ℕ) (s : Sock)
    → s.broken ≡ false
    → 2 + length m ≤ s.room
    → poll (send m) s ≡ (
      value (2 + length m),
      record s { outbox = s.outbox ++ frame m; room = s.room - (2 + length m) },
    )
unfolding send
poll-send m s b h =
    poll-write_enough head _ _ s b (omega arith)
    ∙ poll-write_enough m _ _ (record s { outbox = s.outbox ++ head; room = s.room - 2 }) b
        (omega arith)
    ∙ ends
  where
    head : List ℕ
    head = to_be_bytes (length m % 2 ^ 16)

    rooms : s.room - 2 - length m ≡ s.room - (2 + length m)
    rooms = omega arith

    ends :
        poll {E = IoKind}
          (ready (2 + length m))
          (record s { outbox = (s.outbox ++ head) ++ m; room = s.room - 2 - length m })
        ≡ (
          value (2 + length m),
          record s { outbox = s.outbox ++ frame m; room = s.room - (2 + length m) },
        )
    ends =
        unfold poll in
        λ i. (
          value (2 + length m),
          record s { outbox = append_assoc s.outbox head m i; room = rooms i },
        )

-- The two bytes of the length read back as the length.
be_bytes_lem : (n : ℕ) → n < 2 ^ 16 → from_be_bytes (to_be_bytes n) ≡ n
be_bytes_lem n h = omega arith

-- `recv` takes a frame and leaves what follows it.
pub poll-recv :
    (m rest : List ℕ) (s : Sock)
    → length m < 2 ^ 16
    → s.inbox ≡ frame m ++ rest
    → poll recv s ≡ (value m, record s { inbox = rest })
unfolding recv
poll-recv m rest s h e =
    ap (λ (bs : List ℕ). poll recv (record s { inbox = bs })) e
    ∙ poll-read_enough 2 io _ (record s { inbox = frame m ++ rest }) (omega arith)
    ∙ ap (λ (n : ℕ). poll (read_exact n io ready) (record s { inbox = m ++ rest })) len
    ∙ poll-read_enough (length m) io ready (record s { inbox = m ++ rest })
        (omega (arith, length-append m rest))
    ∙ ends
  where
    len : from_be_bytes (to_be_bytes (length m % 2 ^ 16)) ≡ length m
    len = omega arith

    ends :
        poll {E = IoKind}
          (ready (take (length m) (m ++ rest)))
          (record s { inbox = drop (length m) (m ++ rest) })
        ≡ (value m, record s { inbox = rest })
    ends = unfold poll in rw (take-append_length, drop-append_length)

-- A message of less than 2 ^ 16 bytes, on a socket with room for it and two bytes more: `send` counts
-- these bytes; and on a socket that has in its inbox what `send` put behind all that was sent before,
-- and then more, `recv` gives the message and leaves the rest.
pub recv-send :
    (m wire rest : List ℕ) (s t : Sock)
    → length m < 2 ^ 16
    → s.broken ≡ false
    → 2 + length m ≤ s.room
    → (poll (send m) s).1.outbox ≡ s.outbox ++ wire
    → t.inbox ≡ wire ++ rest
    → ((poll (send m) s).0 ≡ value (2 + length m))
      × (poll recv t ≡ (value m, record t { inbox = rest }))
recv-send m wire rest s t small b h sent came =
    let sends = poll-send m s b h in
    let same : frame m ≡ wire =
      sym (drop-append_length s.outbox (frame m))
      ∙ ap (drop (length s.outbox)) (sym (ap (λ r. r.1.outbox) sends) ∙ sent)
      ∙ drop-append_length s.outbox wire in
    (ap (λ r. r.0) sends, poll-recv m rest t small (came ∙ ap (◌++ rest) (sym same)))
