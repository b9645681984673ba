-- ===== src/Stream/Bind.antt =====
-- One poll of a future that is built from others.
use hubtain.Common.{◌≡◌, refl, leb, length, Bool-cases, inl, inr}
use hubtain.Stream.{
  Fut, ready, fail, panicked, read_exact, write_all, ◌>>=◌, map_err, Sock, Poll, value, error,
  panic, pending, poll,
}

abbrev pub then_poll : {E A B : Type 0} → Poll E A × Sock → (A → Fut E B) → Poll E B × Sock
then_poll (value a, s) f = poll (f a) s
then_poll (error e, s) f = (error e, s)
then_poll (panic, s) f = (panic, s)
then_poll (pending g, s) f = (pending (g >>= f), s)

-- A poll goes on into the second future on what the first has left.
pub poll->>= :
    {E A B : Type 0} (m : Fut E A) (f : A → Fut E B) (s : Sock)
    → poll (m >>= f) s ≡ then_poll (poll m s) f
unfolding poll
poll->>= (ready a) f s = refl
poll->>= (fail e) f s = refl
poll->>= panicked f s = refl
poll->>= (read_exact n c k) f s = elim (Bool-cases (leb n (length s.inbox))) [
  | inl h ↦ rw h (poll->>= (k _) f _)
  | inr h ↦ elim (Bool-cases s.eof) [ inl e ↦ rw (h, e) | inr e ↦ rw (h, e) ]
]
poll->>= (write_all bs c k) f s = elim (Bool-cases s.broken) [
  | inl e ↦ rw e
  | inr e ↦ elim (Bool-cases (leb (length bs) s.room)) [
    | inl h ↦ rw (e, h) (poll->>= k f _)
    | inr h ↦ rw (e, h)
  ]
]

abbrev pub map_poll : {E D A : Type 0} → (E → D) → Poll E A → Poll D A
map_poll g (value a) = value a
map_poll g (error e) = error (g e)
map_poll g panic = panic
map_poll g (pending m) = pending (map_err g m)

pub poll-map_err :
    {E D A : Type 0} (g : E → D) (m : Fut E A) (s : Sock)
    → poll (map_err g m) s ≡ (map_poll g (poll m s).0, (poll m s).1)
unfolding poll
poll-map_err g (ready a) s = refl
poll-map_err g (fail e) s = refl
poll-map_err g panicked s = refl
poll-map_err g (read_exact n c k) s = elim (Bool-cases (leb n (length s.inbox))) [
  | inl h ↦ rw h (poll-map_err g (k _) _)
  | inr h ↦ elim (Bool-cases s.eof) [ inl e ↦ rw (h, e) | inr e ↦ rw (h, e) ]
]
poll-map_err g (write_all bs c k) s = elim (Bool-cases s.broken) [
  | inl e ↦ rw e
  | inr e ↦ elim (Bool-cases (leb (length bs) s.room)) [
    | inl h ↦ rw (e, h) (poll-map_err g k _)
    | inr h ↦ rw (e, h)
  ]
]

-- What follows a future that is ready.
pub poll->>=_value :
    {E A B : Type 0} (m : Fut E A) (f : A → Fut E B) (s : Sock) {a : A} {t : Sock}
    → poll m s ≡ (value a, t)
    → poll (m >>= f) s ≡ poll (f a) t
poll->>=_value m f s e = rw (poll->>= m f s, e)

pub poll-map_err_value :
    {E D A : Type 0} (g : E → D) (m : Fut E A) (s : Sock) {a : A} {t : Sock}
    → poll m s ≡ (value a, t)
    → poll (map_err g m) s ≡ (value a, t)
poll-map_err_value g m s e = rw (poll-map_err g m s, e)
