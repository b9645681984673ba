-- ===== src/Stream/Results.antt =====
-- What every result of a future satisfies, whatever the stream gives it.
use hubtain.Common.{ℕ, ◌≡◌, Bool-cases, inl, inr, List, [], ◌∷◌, leb, length, ◌++◌}
use hubtain.Stream.{
  Fut, ready, fail, panicked, read_exact, write_all, ◌>>=◌, Sock, Poll, value, error, panic,
  pending, poll, map_err, Arrival, resume, await, arrive,
}

-- Every value that the future can end in satisfies `P`.
abbrev pub Always : {E A : Type 0} → (A → Type 0) → Fut E A → Type 0
Always P (ready a) = P a
Always P (fail e) = Unit {0}
Always P panicked = Unit {0}
Always P (read_exact n c k) = (bs : List ℕ) → Always P (k bs)
Always P (write_all bs c k) = Always P k

module _ {E A B : Type 0} (P : A → Type 0) (Q : B → Type 0) where
  pub Always->>= :
      (m : Fut E A) (f : A → Fut E B)
      → Always P m
      → ((a : A) → P a → Always Q (f a))
      → Always Q (m >>= f)
  Always->>= (ready a) f h g = g a h
  Always->>= (fail e) f h g = tt
  Always->>= panicked f h g = tt
  Always->>= (read_exact n c k) f h g = λ bs. Always->>= (k bs) f (h bs) g
  Always->>= (write_all bs c k) f h g = Always->>= k f h g

-- What a poll leaves still satisfies it.
abbrev pub OfPoll : {E A : Type 0} → (A → Type 0) → Poll E A × Sock → Type 0
OfPoll P (value a, s) = P a
OfPoll P (error e, s) = Unit {0}
OfPoll P (panic, s) = Unit {0}
OfPoll P (pending g, s) = Always P g

module _ {E D A : Type 0} (P : A → Type 0) (g : E → D) where
  pub Always-map_err : (m : Fut E A) → Always P m → Always P (map_err g m)
  Always-map_err (ready a) h = h
  Always-map_err (fail e) h = tt
  Always-map_err panicked h = tt
  Always-map_err (read_exact n c k) h = λ bs. Always-map_err (k bs) (h bs)
  Always-map_err (write_all bs c k) h = Always-map_err k h

module _ {E A : Type 0} (P : A → Type 0) where
  pub Always-any : (m : Fut E A) → ((a : A) → P a) → Always P m
  Always-any (ready a) h = h a
  Always-any (fail e) h = tt
  Always-any panicked h = tt
  Always-any (read_exact n c k) h = λ bs. Always-any (k bs) h
  Always-any (write_all bs c k) h = Always-any k h

  pub poll-OfPoll : (m : Fut E A) (s : Sock) → Always P m → OfPoll P (poll m s)
  unfolding poll
  poll-OfPoll (ready a) s h = h
  poll-OfPoll (fail e) s h = tt
  poll-OfPoll panicked s h = tt
  poll-OfPoll (read_exact n c k) s h = elim (Bool-cases (leb n (length s.inbox))) [
    | inl e ↦ rw e (poll-OfPoll (k _) _ (h _))
    | inr e ↦ elim (Bool-cases s.eof) [
      | inl o ↦ rw (e, o) tt
      | inr o ↦ rw (e, o) (λ bs. h (s.inbox ++ bs))
    ]
  ]
  poll-OfPoll (write_all bs c k) s h = elim (Bool-cases s.broken) [
    | inl e ↦ rw e tt
    | inr e ↦ elim (Bool-cases (leb (length bs) s.room)) [
      | inl o ↦ rw (e, o) (poll-OfPoll k _ h)
      | inr o ↦ rw (e, o) h
    ]
  ]

  resume-OfPoll : (r : Poll E A × Sock) (d : Arrival) → OfPoll P r → OfPoll P (resume r d)
  unfolding resume
  resume-OfPoll (value a, s) d h = h
  resume-OfPoll (error e, s) d h = tt
  resume-OfPoll (panic, s) d h = tt
  resume-OfPoll (pending g, s) d h = poll-OfPoll g (arrive s d) h

  pub await-OfPoll : (r : Poll E A × Sock) (ds : List Arrival) → OfPoll P r → OfPoll P (await r ds)
  unfolding await
  await-OfPoll r [] h = h
  await-OfPoll r (d ∷ ds) h = await-OfPoll (resume r d) ds (resume-OfPoll r d h)

  pub OfPoll-value : (r : Poll E A × Sock) (a : A) → r.0 ≡ value a → OfPoll P r → P a
  OfPoll-value (value b, s) a e h = let same : b ≡ a = cc in rw (← same) h
  OfPoll-value (error b, s) a e h = cc
  OfPoll-value (panic, s) a e h = cc
  OfPoll-value (pending g, s) a e h = cc
