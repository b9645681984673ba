-- ===== src/Stream/Steps.antt =====
-- One step of a poll, on each branch.
use hubtain.Common.{
  ℕ, ◌-◌, ◌≤◌, ◌<◌, ◌≡◌, List, [], ◌++◌, true, false, length, take, drop, le→leb, lt→leb,
}
use hubtain.Stream.{
  Fut, IoKind, read_exact, write_all, Sock, error, pending, poll, Arrival, arrive, resume,
  unexpected_eof, other,
}

module _ {E A : Type 0} (n : ℕ) (c : IoKind → E) (k : List ℕ → Fut E A) (s : Sock) where
  pub poll-read_enough :
      n ≤ length s.inbox
      → poll (read_exact n c k) s ≡ poll (k (take n s.inbox)) (record s { inbox = drop n s.inbox })
  unfolding poll
  poll-read_enough h = rw (le→leb n (length s.inbox) h)

  pub poll-read_short :
      length s.inbox < n
      → s.eof ≡ false
      → poll (read_exact n c k) s ≡ (
        pending (read_exact (n - length s.inbox) c (λ bs. k (s.inbox ++ bs))),
        record s { inbox = [] },
      )
  unfolding poll
  poll-read_short h e = rw (lt→leb n (length s.inbox) h, e)

  pub poll-read_eof :
      length s.inbox < n
      → s.eof ≡ true
      → poll (read_exact n c k) s ≡ (error (c unexpected_eof), record s { inbox = [] })
  unfolding poll
  poll-read_eof h e = rw (lt→leb n (length s.inbox) h, e)

module _ {E A : Type 0} (bs : List ℕ) (c : IoKind → E) (k : Fut E A) (s : Sock) where
  pub poll-write_enough :
      s.broken ≡ false
      → length bs ≤ s.room
      → poll (write_all bs c k) s
        ≡ poll k (record s { outbox = s.outbox ++ bs; room = s.room - length bs })
  unfolding poll
  poll-write_enough e h = rw (e, le→leb (length bs) s.room h)

  pub poll-write_short :
      s.broken ≡ false
      → s.room < length bs
      → poll (write_all bs c k) s ≡ (
        pending (write_all (drop s.room bs) c k),
        record s { outbox = s.outbox ++ take s.room bs; room = 0 },
      )
  unfolding poll
  poll-write_short e h = rw (e, lt→leb (length bs) s.room h)

  pub poll-write_broken : s.broken ≡ true → poll (write_all bs c k) s ≡ (error (c other), s)
  unfolding poll
  poll-write_broken e = rw e

-- A future that has lost nothing when it is polled again after an arrival.
abbrev pub Resumes : {E A : Type 0} → Fut E A → Type 0
Resumes f = (s : Sock) (d : Arrival) → s.eof ≡ false → poll f (arrive s d) ≡ resume (poll f s) d

pub eof-arrive : (s : Sock) (d : Arrival) → s.eof ≡ false → (arrive s d).eof ≡ d.closes
eof-arrive s d o = rw o
