-- ===== src/Serve/Left/Steps.antt =====
-- What `serve` does not end, whatever it holds: from its start to its end.
use hubtain.Common.{
  ◌>>=◌, ◌≡◌, ◌≢◌, refl, sym, ap, ◌∙◌, Bool, true, false, not, ◌&&◌, if◌then◌else◌, Bool-cases, ◌⊎◌,
  ◌↔◌, inl, inr, Option, none, some, Option-cases,
}
use mathlib.Core.Option
use hubtain.Server.{FileSrv}
use hubtain.ServerTui.Threads.{
  ThreadEnd, thread_ok, thread_err, thread_panics, thread_runs, tui_join,
}
use hubtain.Serve.{Handle, ServeEnv, Started, punch, begin, is_interactive}
use hubtain.Serve.Release.{ReleaseEnv, free_handle, free_all, after_join, cleanup}
use hubtain.Serve.Left.{
  Way, leaves_early, reaches_cleanup, is_held, Joins, Cleans, punch_makes, begin_makes, loop_leaves,
  serve_keeps,
}

-- What the release of a handle leaves.
freed :
    (sys : ReleaseEnv) (held : Handle) → (free_all sys held true).freed ≡ (free_handle sys held).1
unfolding free_all
freed sys held = elim (Bool-cases (free_handle sys held).0) [
  | inl well ↦ rw well refl
  | inr off ↦ rw off refl
]

not-false_iff : (b : Bool) → (not b ≡ false) ↔ (b ≡ true)
not-false_iff true = (λ e. refl, λ e. refl)
not-false_iff false = (λ e. absurd (cc), λ e. absurd (cc))

-- A thread that has not ended well keeps the cleanup from what follows the join.
stopped :
    {K : Type 0} (render events : ThreadEnd)
    → (render ≢ thread_ok) ⊎ (events ≢ thread_ok)
    → ◌≡◌ {A = Bool} true false ↔ (Joins (some (render, events)) × K)
stopped render events off = (λ e. absurd (cc), λ h. absurd (apart h.0 off))
  where
    apart : Joins (some (render, events)) → ¬ ((render ≢ thread_ok) ⊎ (events ≢ thread_ok))
    apart (inl e) o = absurd (cc)
    apart (inr e) (inl o) = o (cc)
    apart (inr e) (inr o) = o (cc)

module _ (sys : ReleaseEnv) (held : Handle) (is : is_held held ≡ true) where
  unreleased :
      (if (free_all sys held true).freed then false else is_held held)
      ≡ not (free_handle sys held).1
  unreleased = (λ i. if freed sys held i then false else is i) ∙ shorter (free_handle sys held).1
    where
      shorter : (b : Bool) → (if b then false else true) ≡ not b
      shorter true = refl
      shorter false = refl

  released_iff :
      (threads : Option (ThreadEnd × ThreadEnd))
      → Joins threads
      → ((if (free_all sys held true).freed then false else is_held held) ≡ false)
        ↔ (Joins threads × ((free_handle sys held).1 ≡ true))
  released_iff threads joins = (
    λ e. (joins, (not-false_iff (free_handle sys held).1).0 (sym unreleased ∙ e)),
    λ h. unreleased ∙ (not-false_iff (free_handle sys held).1).1 h.1,
  )

  -- The cleanup releases it if nothing stops it before, and the release succeeds.
  loop_leaves-false_iff :
      (way : Way)
      → (loop_leaves sys way held ≡ false) ↔ (Cleans way × ((free_handle sys held).1 ≡ true))
  unfolding loop_leaves cleanup after_join tui_join
  loop_leaves-false_iff leaves_early = rw is (λ e. absurd (cc), λ h. absurd h.0)
  loop_leaves-false_iff (reaches_cleanup none) = released_iff none (inl refl)
  loop_leaves-false_iff (reaches_cleanup (some (thread_ok, thread_ok))) = released_iff _ (inr refl)
  loop_leaves-false_iff (reaches_cleanup (some (thread_ok, thread_err))) =
      rw is (stopped _ _ (inr λ e. absurd (cc)))
  loop_leaves-false_iff (reaches_cleanup (some (thread_ok, thread_panics))) =
      rw is (stopped _ _ (inr λ e. absurd (cc)))
  loop_leaves-false_iff (reaches_cleanup (some (thread_ok, thread_runs))) =
      rw is (stopped _ _ (inr λ e. absurd (cc)))
  loop_leaves-false_iff (reaches_cleanup (some (thread_err, events))) =
      rw is (stopped _ _ (inl λ e. absurd (cc)))
  loop_leaves-false_iff (reaches_cleanup (some (thread_panics, events))) =
      rw is (stopped _ _ (inl λ e. absurd (cc)))
  loop_leaves-false_iff (reaches_cleanup (some (thread_runs, events))) =
      rw is (stopped _ _ (inl λ e. absurd (cc)))

-- `begin` on an interface that is not wanted, or starts.
tui_ready :
    (wants starts : Bool)
    → (wants ≡ false) ⊎ (starts ≡ true)
    → (if wants then (if starts then some true else none) else some false) ≡ some wants
tui_ready false starts h = refl
tui_ready true true h = refl
tui_ready true false (inl e) = absurd (cc)
tui_ready true false (inr e) = absurd (cc)

tui_unready :
    (wants starts : Bool) → (wants ≡ false) ⊎ (starts ≡ true) → (wants && not starts) ≡ false
tui_unready false starts h = refl
tui_unready true true h = refl
tui_unready true false (inl e) = absurd (cc)
tui_unready true false (inr e) = absurd (cc)

map_then :
    {A B C : Type 0} (o : Option A) (f : A → B) (g : B → Option C)
    → (Option.map f o >>= g) ≡ (o >>= λ a. g (f a))
map_then none f g = refl
map_then (some a) f g = refl

-- A server whose hole puncher gives `o`, and has made something just as `made` says.
module _ (env : ServeEnv) (self : FileSrv) {A : Type 0} (o : Option A) (f : A → Handle)
    (made : Bool) (held : (a : A) → is_held (f a) ≡ true)
    (makes_all : (a : A) → o ≡ some a → made ≡ true)
    (punched : punch env self.holepuncher self.tcp_sock ≡ Option.map f o)
    (makes_it : punch_makes env self.holepuncher self.tcp_sock ≡ made)
    (ready : ((is_interactive self.client_approval_strategy && self.stay_alive) ≡ false)
      ⊎ ((env.is_tty && env.tui_starts) ≡ true)) where
  abbrev wants_tui : Bool
  wants_tui = is_interactive self.client_approval_strategy && self.stay_alive

  makes : begin_makes env self ≡ made
  unfolding begin_makes
  makes =
      ap (λ b. if b then false else punch_makes env self.holepuncher self.tcp_sock)
        (tui_unready wants_tui (env.is_tty && env.tui_starts) ready)
      ∙ makes_it

  begins : begin env self ≡ (do
    a ← o
    if env.set_broadcast && env.local_addr
        then some (record { tui = wants_tui; handle = f a })
        else none)
  unfolding begin
  begins = rw (tui_ready wants_tui (env.is_tty && env.tui_starts) ready) (
      (λ i. do
        handle ← punched i
        if env.set_broadcast && env.local_addr
            then some (record { tui = wants_tui; handle = handle })
            else none)
      ∙ map_then o f _)

  -- What `serve` leaves, step by step.
  steps :
      (sys : ReleaseEnv) (way : Way)
      → serve_keeps env sys self way ≡ (elim o [
        | none ↦ made
        | some a ↦ if env.set_broadcast && env.local_addr then loop_leaves sys way (f a) else made
      ])
  unfolding serve_keeps
  steps sys way =
      (λ i. elim (begins i) [ none ↦ makes i | some st ↦ loop_leaves sys way st.handle ])
      ∙ go o (env.set_broadcast && env.local_addr)
    where
      go :
          (p : Option A) (b : Bool)
          → (elim (◌>>=◌ {B = Started} p
              (λ a. if b then some (record { tui = wants_tui; handle = f a }) else none)) [
                | none ↦ made
                | some st ↦ loop_leaves sys way st.handle
              ])
            ≡ (elim p [ none ↦ made | some a ↦ if b then loop_leaves sys way (f a) else made ])
      go none b = refl
      go (some a) true = refl
      go (some a) false = refl

  -- Nothing is left just if nothing was made, or what was made is held by a start that succeeds, and the
  -- cleanup is reached and releases it.
  pub keeps-false_iff :
      (sys : ReleaseEnv) (way : Way)
      → (serve_keeps env sys self way ≡ false) ↔ (
          (made ≡ false)
          ⊎ ((a : A) × (o ≡ some a)
              × ((env.set_broadcast && env.local_addr) ≡ true)
              × Cleans way
              × ((free_handle sys (f a)).1 ≡ true)))
  keeps-false_iff sys way = elim (Option-cases o) [
    | inl off ↦ (
      λ e. (let none_made : made ≡ false = rw off at (sym (steps sys way) ∙ e) in inl none_made),
      λ h. elim h [
        | inl never ↦ steps sys way ∙ rw off never
        | inr (a, on, broad, cleans, frees) ↦ absurd (cc)
      ],
    )
    | inr (a, on) ↦
        let was = makes_all a on in
        elim (Bool-cases (env.set_broadcast && env.local_addr)) [
          | inl broad ↦
              let loops : serve_keeps env sys self way ≡ loop_leaves sys way (f a) =
                steps sys way ∙ rw (on, broad) refl in
              (
                λ e.
                    (let (cleans, frees) =
                        (loop_leaves-false_iff sys (f a) (held a) way).0 (sym loops ∙ e) in
                      inr (a, on, broad, cleans, frees)),
                λ h. elim h [
                  | inl never ↦ absurd (cc)
                  | inr (d, there, up, cleans, frees) ↦
                      let same : d ≡ a = cc in
                      loops
                      ∙ (loop_leaves-false_iff sys (f a) (held a) way).1
                          (cleans, ap (λ h. (free_handle sys (f h)).1) (sym same) ∙ frees)
                ],
              )
          | inr down ↦
              let stays : serve_keeps env sys self way ≡ made =
                steps sys way ∙ rw (on, down) refl in
              (
                λ e. inl (sym stays ∙ e),
                λ h. elim h [
                  | inl never ↦ stays ∙ never
                  | inr (d, there, up, cleans, frees) ↦ absurd (cc)
                ],
              )
        ]
  ]
