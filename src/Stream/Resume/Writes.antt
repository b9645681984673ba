-- ===== src/Stream/Resume/Writes.antt =====
-- A write that waits and is polled again.
use hubtain.Common.{
  ℕ, ◌-◌, ◌+◌, ◌≤◌, ◌<◌, ◌≡◌, List, ◌++◌, arith, true, false, Bool-cases, inl, inr, ap, sym, ◌∙◌,
  leb, length, take, drop, take-append-drop, take-add, drop-add, zero-add, append_assoc,
  length-drop, leb→le, leb_false→lt,
}
use hubtain.Stream.{Fut, IoKind, write_all, Sock, Poll, pending, poll, Arrival, arrive, resume}
use hubtain.Stream.Steps.{poll-write_enough, poll-write_short, poll-write_broken, Resumes}

module _ {E A : Type 0} (bs : List ℕ) (c : IoKind → E) (k : Fut E A) (s : Sock) (d : Arrival) where
  pub write_enough-arrive :
      Resumes k
      → s.eof ≡ false
      → s.broken ≡ false
      → length bs ≤ s.room
      → poll (write_all bs c k) (arrive s d) ≡ resume (poll (write_all bs c k) s) d
  write_enough-arrive ih o b h =
      poll-write_enough bs c k (arrive s d) b (omega arith)
      ∙ written
      ∙ ap (λ r. resume r d) (sym (poll-write_enough bs c k s b h))
    where
      room_left : s.room + d.more_room - length bs ≡ s.room - length bs + d.more_room
      room_left = omega arith

      written :
          poll k (record (arrive s d) {
            outbox = s.outbox ++ bs;
            room = s.room + d.more_room - length bs;
          })
          ≡ resume (poll k (record s { outbox = s.outbox ++ bs; room = s.room - length bs })) d
      written =
          rw room_left (ih (record s { outbox = s.outbox ++ bs; room = s.room - length bs }) d o)

  -- The part that was not yet written, on the full socket.
  part : Fut E A
  part = write_all (drop s.room bs) c k

  full : Sock
  full = record s { outbox = s.outbox ++ take s.room bs; room = 0 }

  length-part : length (drop s.room bs) ≡ length bs - s.room
  length-part = length-drop s.room bs

  write_short-enough :
      s.broken ≡ false
      → s.room < length bs
      → length bs ≤ s.room + d.more_room
      → poll (write_all bs c k) (arrive s d) ≡ poll part (arrive full d)
  unfolding part full
  write_short-enough b h m =
      poll-write_enough bs c k (arrive s d) b m
      ∙ sent
      ∙ sym (poll-write_enough (drop s.room bs) c k (arrive full d) b (omega (arith, length-part)))
    where
      outs : s.outbox ++ bs ≡ (s.outbox ++ take s.room bs) ++ drop s.room bs
      outs = rw (append_assoc, take-append-drop)

      rooms : s.room + d.more_room - length bs ≡ 0 + d.more_room - length (drop s.room bs)
      rooms = omega (arith, length-part)

      sent :
          poll k (record (arrive s d) {
            outbox = s.outbox ++ bs;
            room = s.room + d.more_room - length bs;
          })
          ≡ poll k (record (arrive full d) {
            outbox = (s.outbox ++ take s.room bs) ++ drop s.room bs;
            room = 0 + d.more_room - length (drop s.room bs);
          })
      sent = λ i. poll k (record (arrive s d) { outbox = outs i; room = rooms i })

  write_short-short :
      s.broken ≡ false
      → s.room < length bs
      → s.room + d.more_room < length bs
      → poll (write_all bs c k) (arrive s d) ≡ poll part (arrive full d)
  unfolding part full
  write_short-short b h m =
      poll-write_short bs c k (arrive s d) b m
      ∙ same_part
      ∙ sym (poll-write_short (drop s.room bs) c k (arrive full d) b (omega (arith, length-part)))
    where
      outs :
          s.outbox ++ take (s.room + d.more_room) bs
          ≡ (s.outbox ++ take s.room bs) ++ take (0 + d.more_room) (drop s.room bs)
      outs = rw (append_assoc, zero-add, take-add)

      rests : drop (s.room + d.more_room) bs ≡ drop (0 + d.more_room) (drop s.room bs)
      rests = rw (zero-add, drop-add)

      same_part :
          ◌≡◌ {A = Poll E A × Sock}
            (
              pending (write_all (drop (s.room + d.more_room) bs) c k),
              record (arrive s d) { outbox = s.outbox ++ take (s.room + d.more_room) bs; room = 0 },
            )
            (
              pending (write_all (drop (0 + d.more_room) (drop s.room bs)) c k),
              record (arrive full d) {
                outbox = (s.outbox ++ take s.room bs) ++ take (0 + d.more_room) (drop s.room bs);
                room = 0;
              },
            )
      same_part = λ i.
          (pending (write_all (rests i) c k), record (arrive s d) { outbox = outs i; room = 0 })

  pub write_short-arrive :
      s.broken ≡ false
      → s.room < length bs
      → poll (write_all bs c k) (arrive s d) ≡ resume (poll (write_all bs c k) s) d
  unfolding part full resume
  write_short-arrive b h =
      elim (Bool-cases (leb (length bs) (s.room + d.more_room))) [
        | inl e ↦ write_short-enough b h (leb→le _ _ e)
        | inr e ↦ write_short-short b h (leb_false→lt _ _ e)
      ]
      ∙ ap (λ r. resume r d) (sym (poll-write_short bs c k s b h))

  pub write_broken-arrive :
      s.broken ≡ true → poll (write_all bs c k) (arrive s d) ≡ resume (poll (write_all bs c k) s) d
  unfolding resume
  write_broken-arrive b =
      poll-write_broken bs c k (arrive s d) b
      ∙ ap (λ r. resume r d) (sym (poll-write_broken bs c k s b))
