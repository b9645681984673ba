-- ===== src/Framing/Partial.antt =====
-- `recv` on a part of a frame.
use hubtain.Common.{
  ℕ, ◌-◌, ◌+◌, ◌%◌, ◌^◌, ◌≤◌, ◌<◌, ◌≡◌, sym, ap, ◌∙◌, true, false, Bool-cases, inl, inr, List, [],
  ◌++◌, arith, length, take, drop, leb, leb→le, leb_false→lt, length-append, length-drop,
  take-append_le, take-append_length, take-append_ge, append_assoc,
}
use hubtain.Stream.{
  Fut, IoKind, ready, read_exact, write_all, Sock, error, pending, poll, unexpected_eof,
}
use hubtain.Stream.Steps.{
  poll-read_enough, poll-read_short, poll-write_enough, poll-write_short, poll-read_eof,
}
use hubtain.Framing.{to_be_bytes, from_be_bytes, recv, send, io}
use hubtain.Framing.RoundTrip.{frame}

module _ (m front back : List ℕ) (s : Sock) (small : length m < 2 ^ 16)
    (cut : front ++ back ≡ frame m) (more : 0 < length back) (has : s.inbox ≡ front) where
  lengths : length front + length back ≡ 2 + length m
  lengths = omega (arith, length-append front back, ap length cut)

  -- Once the two bytes of the length are in, the next read waits for the message.
  header_read :
      2 ≤ length front
      → poll recv s ≡ poll (read_exact (length m) io ready) (record s { inbox = drop 2 front })
  unfolding recv
  header_read h =
      ap (λ (bs : List ℕ). poll recv (record s { inbox = bs })) has
      ∙ poll-read_enough 2 io _ (record s { inbox = front }) h
      ∙ ap (λ (n : ℕ). poll (read_exact n io ready) (record s { inbox = drop 2 front })) len
    where
      head : take 2 front ≡ to_be_bytes (length m % 2 ^ 16)
      head =
          sym (take-append_le 2 front back h)
          ∙ ap (take 2) cut
          ∙ take-append_length (to_be_bytes (length m % 2 ^ 16)) m

      len : from_be_bytes (take 2 front) ≡ length m
      len = rw head (omega arith)

  -- With a part of a frame and no end of the stream, `recv` waits and has emptied the inbox.
  pub poll-recv_partial :
      s.eof ≡ false
      → (g : Fut IoKind (List ℕ)) × (poll recv s ≡ (pending g, record s { inbox = [] }))
  unfolding recv
  poll-recv_partial e = elim (Bool-cases (leb 2 (length front))) [
    | inl h ↦ (
      _,
      header_read (leb→le _ _ h)
          ∙ poll-read_short (length m) io ready (record s { inbox = drop 2 front })
              (omega (arith, lengths, length-drop 2 front, leb→le 2 (length front) h)) e,
    )
    | inr h ↦ (_, poll-read_short 2 io _ s (rw has (leb_false→lt _ _ h)) e)
  ]

  -- With a part of a frame at the end of the stream, `recv` fails with `UnexpectedEof`.
  pub poll-recv_cut : s.eof ≡ true → poll recv s ≡ (error unexpected_eof, record s { inbox = [] })
  unfolding recv
  poll-recv_cut e = elim (Bool-cases (leb 2 (length front))) [
    | inl h ↦
        header_read (leb→le _ _ h)
        ∙ poll-read_eof (length m) io ready (record s { inbox = drop 2 front })
            (omega (arith, lengths, length-drop 2 front, leb→le 2 (length front) h)) e
    | inr h ↦ poll-read_eof 2 io _ s (rw has (leb_false→lt _ _ h)) e
  ]

-- Without the room for a frame, `send` writes what has room and waits.
pub poll-send_full :
    (m : List ℕ) (s : Sock)
    → s.broken ≡ false
    → s.room < 2 + length m
    → (g : Fut IoKind ℕ) × (poll (send m) s
        ≡ (pending g, record s { outbox = s.outbox ++ take s.room (frame m); room = 0 }))
unfolding send
poll-send_full m s b h = elim (Bool-cases (leb 2 s.room)) [
  | inl e ↦ (
    in_message,
    poll-write_enough head io body s b (leb→le _ _ e)
        ∙ poll-write_short m io done (record s { outbox = s.outbox ++ head; room = s.room - 2 }) b
            (omega (arith, leb→le 2 s.room e))
        ∙ λ i. (pending in_message, record s { outbox = after_head (leb→le _ _ e) i; room = 0 }),
  )
  | inr e ↦ (
    in_length,
    poll-write_short head io body s b (leb_false→lt _ _ e) ∙ λ i.
        (pending in_length, record s { outbox = in_head (leb_false→lt _ _ e) i; room = 0 }),
  )
]
  where
    head : List ℕ
    head = to_be_bytes (length m % 2 ^ 16)

    done : Fut IoKind ℕ
    done = ready (2 + length m)

    body : Fut IoKind ℕ
    body = write_all m io done

    in_message : Fut IoKind ℕ
    in_message = write_all (drop (s.room - 2) m) io done

    in_length : Fut IoKind ℕ
    in_length = write_all (drop s.room head) io body

    after_head :
        2 ≤ s.room → (s.outbox ++ head) ++ take (s.room - 2) m ≡ s.outbox ++ take s.room (frame m)
    after_head h =
        append_assoc s.outbox head _ ∙ ap (◌++◌ s.outbox) (sym (take-append_ge s.room head m h))

    in_head : s.room < 2 → s.outbox ++ take s.room head ≡ s.outbox ++ take s.room (frame m)
    in_head h = ap (◌++◌ s.outbox) (sym (take-append_le s.room head m (omega arith)))
