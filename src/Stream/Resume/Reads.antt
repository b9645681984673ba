-- ===== src/Stream/Resume/Reads.antt =====
-- A read that waits and is polled again.
use hubtain.Common.{
  ℕ, ◌-◌, ◌≤◌, ◌<◌, ◌≡◌, List, [], ◌++◌, arith, false, Bool-cases, inl, inr, ap, sym, ◌∙◌, leb,
  length, take, drop, length-append, take-append_le, take-append_ge, drop-append_le, drop-append_ge,
  append_assoc, leb→le, leb_false→lt,
}
use hubtain.Stream.{Fut, IoKind, read_exact, Sock, Poll, pending, poll, Arrival, arrive, resume}
use hubtain.Stream.Steps.{poll-read_enough, poll-read_short, poll-read_eof, Resumes, eof-arrive}

module _ {E A : Type 0} (n : ℕ) (c : IoKind → E) (k : List ℕ → Fut E A) (s : Sock) (d : Arrival)
    (o : s.eof ≡ false) where
  pub read_enough-arrive :
      Resumes (k (take n s.inbox))
      → n ≤ length s.inbox
      → poll (read_exact n c k) (arrive s d) ≡ resume (poll (read_exact n c k) s) d
  read_enough-arrive ih h =
      poll-read_enough n c k (arrive s d) (omega (arith, length-append s.inbox d.bytes))
      ∙ taken
      ∙ ap (λ r. resume r d) (sym (poll-read_enough n c k s h))
    where
      taken :
          poll
            (k (take n (s.inbox ++ d.bytes)))
            (record (arrive s d) { inbox = drop n (s.inbox ++ d.bytes) })
          ≡ resume (poll (k (take n s.inbox)) (record s { inbox = drop n s.inbox })) d
      taken =
          rw (take-append_le n s.inbox d.bytes h, drop-append_le n s.inbox d.bytes h)
            (ih (record s { inbox = drop n s.inbox }) d o)

  left : Fut E A
  left = read_exact (n - length s.inbox) c (λ bs. k (s.inbox ++ bs))

  drained : Sock
  drained = record s { inbox = [] }

  -- What is still missing does not depend on when the first part came.
  same_wait :
      (t : Sock)
      → ◌≡◌ {A = Poll E A × Sock}
          (
            pending (
                read_exact
                  (n - length (s.inbox ++ d.bytes))
                  c
                  (λ bs. k ((s.inbox ++ d.bytes) ++ bs))),
            t,
          )
          (
            pending (
                read_exact
                  (n - length s.inbox - length d.bytes)
                  c
                  (λ bs. k (s.inbox ++ (d.bytes ++ bs)))),
            t,
          )
  same_wait t =
      let p : n - length (s.inbox ++ d.bytes) ≡ n - length s.inbox - length d.bytes =
        omega (arith, length-append s.inbox d.bytes) in
      λ i. (pending (read_exact (p i) c (λ bs. k (append_assoc s.inbox d.bytes bs i))), t)

  read_short-left :
      length s.inbox < n → poll (read_exact n c k) (arrive s d) ≡ poll left (arrive drained d)
  unfolding left drained
  read_short-left h = elim (Bool-cases (leb n (length (s.inbox ++ d.bytes)))) [
    | inl e ↦
        poll-read_enough n c k (arrive s d) (leb→le _ _ e)
        ∙ rw
            (
              take-append_ge n s.inbox d.bytes (omega arith),
              drop-append_ge n s.inbox d.bytes (omega arith),
            )
            (sym (
              poll-read_enough (n - length s.inbox) c (λ bs. k (s.inbox ++ bs))
                (arrive (record s { inbox = [] }) d)
                (omega (arith, leb→le _ _ e, length-append s.inbox d.bytes))))
    | inr e ↦ still_short (leb_false→lt _ _ e)
  ]
    where
      still_short :
          length (s.inbox ++ d.bytes) < n
          → poll (read_exact n c k) (arrive s d) ≡ poll left (arrive drained d)
      still_short m = elim (Bool-cases d.closes) [
        | inl z ↦
            poll-read_eof n c k (arrive s d) m (eof-arrive s d o ∙ z)
            ∙ sym (
                poll-read_eof (n - length s.inbox) c (λ bs. k (s.inbox ++ bs))
                  (arrive (record s { inbox = [] }) d)
                  (omega (arith, length-append s.inbox d.bytes)) (eof-arrive s d o ∙ z))
        | inr z ↦
            poll-read_short n c k (arrive s d) m (eof-arrive s d o ∙ z)
            ∙ same_wait _
            ∙ sym (
                poll-read_short (n - length s.inbox) c (λ bs. k (s.inbox ++ bs))
                  (arrive (record s { inbox = [] }) d)
                  (omega (arith, length-append s.inbox d.bytes)) (eof-arrive s d o ∙ z))
      ]

  pub read_short-arrive :
      length s.inbox < n
      → poll (read_exact n c k) (arrive s d) ≡ resume (poll (read_exact n c k) s) d
  unfolding left drained resume
  read_short-arrive h = read_short-left h ∙ ap (λ r. resume r d) (sym (poll-read_short n c k s h o))
