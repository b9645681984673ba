-- ===== src/Stream/Resume.antt =====
-- A future that waits and is polled again has lost nothing.
mod Reads
mod Writes
use hubtain.Common.{
  ◌-◌, ◌≡◌, refl, List, [], ◌∷◌, false, Bool-cases, inl, inr, ap, sym, ◌∙◌, leb, length, take,
  leb→le, leb_false→lt,
}
use hubtain.Stream.{
  Fut, ready, fail, panicked, read_exact, write_all, Sock, poll, Arrival, arrive, arrive_all,
  resume, await,
}
use hubtain.Stream.Steps.{eof-arrive}
use hubtain.Stream.Resume.Reads.{read_enough-arrive, read_short-arrive}
use hubtain.Stream.Resume.Writes.{write_enough-arrive, write_short-arrive, write_broken-arrive}

-- A poll after an arrival is a poll before it that is resumed: a future that waits in the middle of
-- a read or a write, and is kept, takes up where it stopped.
pub poll-arrive :
    {E A : Type 0} (f : Fut E A) (s : Sock) (d : Arrival)
    → s.eof ≡ false
    → poll f (arrive s d) ≡ resume (poll f s) d
poll-arrive (ready a) s d o = unfold poll resume in refl
poll-arrive (fail x) s d o = unfold poll resume in refl
poll-arrive panicked s d o = unfold poll resume in refl
poll-arrive (read_exact n c k) s d o = elim (Bool-cases (leb n (length s.inbox))) [
  | inl h ↦ read_enough-arrive n c k s d o (poll-arrive (k (take n s.inbox))) (leb→le _ _ h)
  | inr h ↦ read_short-arrive n c k s d o (leb_false→lt _ _ h)
]
poll-arrive (write_all bs c k) s d o = elim (Bool-cases s.broken) [
  | inl b ↦ write_broken-arrive bs c k s d b
  | inr b ↦ elim (Bool-cases (leb (length bs) s.room)) [
    | inl h ↦ write_enough-arrive bs c k s d (poll-arrive k) o b (leb→le _ _ h)
    | inr h ↦ write_short-arrive bs c k s d b (leb_false→lt _ _ h)
  ]
]

-- Only the last arrival may say that the peer sends no more.
abbrev pub IsOrdered : List Arrival → Type 0
IsOrdered [] = Unit {0}
IsOrdered (d ∷ []) = Unit {0}
IsOrdered (d ∷ e ∷ ds) = (d.closes ≡ false) × IsOrdered (e ∷ ds)

-- However the bytes of a stream are cut into arrivals, and however the room for writes comes, an
-- awaited future ends as if all had been there at its first poll.
pub await-arrive_all :
    {E A : Type 0} (f : Fut E A) (s : Sock) (ds : List Arrival)
    → s.eof ≡ false
    → IsOrdered ds
    → await (poll f s) ds ≡ poll f (arrive_all s ds)
unfolding await
await-arrive_all f s [] o h = refl
await-arrive_all f s (d ∷ []) o h = sym (poll-arrive f s d o)
await-arrive_all f s (d ∷ e ∷ ds) o h =
    ap (λ r. await r (e ∷ ds)) (sym (poll-arrive f s d o))
    ∙ await-arrive_all f (arrive s d) (e ∷ ds) (eof-arrive s d o ∙ h.0) h.1
