-- ===== src/Serve/Release/Refines.antt =====
-- The cleanup of `serve` against its two steps in the model of the tasks.
use hubtain.Common.{
  ◌≡◌, refl, sym, subst, ◌∙◌, Bool, true, false, ◌⊎◌, inl, inr, Option, none, some, arith,
}
use hubtain.ServerTui.Threads.{ThreadEnd, JoinEnd, joined, join_panics, join_waits, tui_join}
use hubtain.Serve.{
  Handle, no_handle, ngrok_handle, igd_handle, Outcome, success, failure, DataTask, checking,
  accepting, transferring, data_ended, cleaning, main_ended, State, Step, data_stop, data_go,
  accept_timeout, accept_fails, accept_many, accept_once, transfer_ends, main_stop, main_go,
  ping_timeout, ping_fails, ping, join_ok, join_fails, clean_ok, clean_fails, tui_quits, Reach,
  start, next,
}
use hubtain.Serve.Cleanup.{MainPhase, reach-MainPhase}
use hubtain.Serve.Release.{
  ReleaseEnv, Cleaned, CleanEnd, clean_success, clean_error, clean_panics, clean_waits,
  ngrok_shutdown, igd_free, free_handle, free_all, after_join, cleanup,
}

-- `data_srv` ends well only under the flag, which stays until `serve` has ended well.
abbrev FlagPhase : DataTask → State → Type 0
FlagPhase checking s = Unit
FlagPhase accepting s = Unit
FlagPhase transferring s = (s.shutdown_flag ≡ true) ⊎ (s.main_task ≡ main_ended success)
FlagPhase (data_ended success) s = (s.shutdown_flag ≡ true) ⊎ (s.main_task ≡ main_ended success)
FlagPhase (data_ended failure) s = Unit

-- A turn of `serve`, and the user's key.
main_turn :
    (d : DataTask) (s t : State)
    → FlagPhase d s
    → ((s.shutdown_flag ≡ true) ⊎ (s.main_task ≡ main_ended success)
        → (t.shutdown_flag ≡ true) ⊎ (t.main_task ≡ main_ended success))
    → FlagPhase d t
main_turn checking s t h f = tt
main_turn accepting s t h f = tt
main_turn transferring s t h f = f h
main_turn (data_ended success) s t h f = f h
main_turn (data_ended failure) s t h f = tt

Step-FlagPhase :
    {k tui : Bool} {s t : State}
    → Step k tui s t
    → FlagPhase s.data_task s
    → FlagPhase t.data_task t
Step-FlagPhase (data_stop d f e) h = rw e (inl f)
Step-FlagPhase (data_go d f e) h = rw e tt
Step-FlagPhase (accept_timeout d e) h = rw e tt
Step-FlagPhase (accept_fails d e) h = rw e tt
Step-FlagPhase (accept_many k d e) h = rw e tt
Step-FlagPhase (accept_once g k d e) h = rw e (inl refl)
Step-FlagPhase (transfer_ends success d y e) h = rw e (rw d at h)
Step-FlagPhase (transfer_ends failure d y e) h = rw e tt
Step-FlagPhase {s = s} (main_stop m f e) h = rw e (main_turn s.data_task s _ h (λ x. ground arith))
Step-FlagPhase {s = s} (main_go m f e) h = rw e (main_turn s.data_task s _ h (λ x. ground arith))
Step-FlagPhase {s = s} (ping_timeout m e) h = rw e (main_turn s.data_task s _ h (λ x. ground arith))
Step-FlagPhase {s = s} (ping_fails m e) h = rw e (main_turn s.data_task s _ h (λ x. ground arith))
Step-FlagPhase {s = s} (ping m e) h = rw e (main_turn s.data_task s _ h (λ x. ground arith))
Step-FlagPhase {s = s} (join_ok m d e) h = rw e (main_turn s.data_task s _ h (λ x. ground arith))
Step-FlagPhase {s = s} (join_fails m d e) h = rw e (main_turn s.data_task s _ h (λ x. ground arith))
Step-FlagPhase {s = s} (clean_ok m e) h = rw e (main_turn s.data_task s _ h (λ x. inr refl))
Step-FlagPhase {s = s} (clean_fails m e) h = rw e (main_turn s.data_task s _ h (λ x. ground arith))
Step-FlagPhase {s = s} (tui_quits k o e) h = rw e (main_turn s.data_task s _ h (λ x. inl refl))

reach-FlagPhase : {k tui : Bool} {s : State} → Reach k tui s → FlagPhase s.data_task s
reach-FlagPhase start = tt
reach-FlagPhase (next r st) = Step-FlagPhase st (reach-FlagPhase r)

-- At the cleanup the flag is set.
cleaning_flag :
    {k tui : Bool} {s : State} → Reach k tui s → s.main_task ≡ cleaning → s.shutdown_flag ≡ true
cleaning_flag {s = s} r m =
    let phase : MainPhase cleaning s = rw m at (reach-MainPhase r) in
    let flag : FlagPhase (data_ended success) s = rw phase.1 at (reach-FlagPhase r) in ground arith

-- The state of the tasks after a cleanup that returned `Ok`, or an error.
abbrev pub after_cleanup : State → Outcome → Cleaned → State
after_cleanup s success c = record s {
  main_task = main_ended success;
  released = c.freed;
  shutdown_flag = c.shutdown_flag;
}
after_cleanup s failure c = record s {
  main_task = main_ended failure;
  shutdown_flag = c.shutdown_flag;
}

abbrev pub outcome_of : CleanEnd → Option Outcome
outcome_of clean_success = some success
outcome_of clean_error = some failure
outcome_of clean_panics = none
outcome_of clean_waits = none

-- What the release of the handle leaves.
abbrev Leaves : Cleaned → Type 0
Leaves c =
    ((c.ending ≡ clean_success) × (c.freed ≡ true) × (c.shutdown_flag ≡ false))
    ⊎ ((c.ending ≡ clean_error) × (c.shutdown_flag ≡ true))
    ⊎ (outcome_of c.ending ≡ none)

free_all-Leaves : (env : ReleaseEnv) (held : Handle) → Leaves (free_all env held true)
unfolding free_all free_handle ngrok_shutdown igd_free
free_all-Leaves env no_handle = inl (refl, refl, refl)
free_all-Leaves env (ngrok_handle url) = ground arith
free_all-Leaves env (igd_handle port) = ground arith

after_join-Leaves :
    (env : ReleaseEnv) (held : Handle) (j : JoinEnd) → Leaves (after_join env held j)
unfolding after_join
after_join-Leaves env held joined = free_all-Leaves env held
after_join-Leaves env held join_panics = inr (inr refl)
after_join-Leaves env held join_waits = inr (inr refl)

cleanup-Leaves :
    (env : ReleaseEnv) (ends : Option (ThreadEnd × ThreadEnd)) (held : Handle)
    → Leaves (cleanup env ends held true)
unfolding cleanup
cleanup-Leaves env none held = free_all-Leaves env held
cleanup-Leaves env (some (render, events)) held =
    after_join-Leaves env held (tui_join render events)

-- In every run, when `serve` comes to its cleanup and the cleanup returns, whatever handle it holds and
-- however the threads of the interface end, then this is a step of the tasks: `Ok` leaves the handle
-- released and the flag cleared, and an error leaves the flag set.
pub cleanup-Step :
    {k tui : Bool} {s : State} (env : ReleaseEnv) (ends : Option (ThreadEnd × ThreadEnd))
    (held : Handle) (o : Outcome)
    → Reach k tui s
    → s.main_task ≡ cleaning
    → outcome_of (cleanup env ends held s.shutdown_flag).ending ≡ some o
    → Step k tui s (after_cleanup s o (cleanup env ends held s.shutdown_flag))
cleanup-Step {k} {tui} {s} env ends held o r m e =
    let flag = cleaning_flag r m in
    let leaves : Leaves (cleanup env ends held s.shutdown_flag) =
      subst (λ f. Leaves (cleanup env ends held f)) (sym flag) (cleanup-Leaves env ends held) in
    returns (cleanup env ends held s.shutdown_flag) flag leaves o e
  where
    returns :
        (c : Cleaned)
        → s.shutdown_flag ≡ true
        → Leaves c
        → (o : Outcome) → outcome_of c.ending ≡ some o
        → Step k tui s (after_cleanup s o c)
    returns c flag (inl (well, freed, cleared)) success e = clean_ok m (λ i. record s {
      main_task = main_ended success;
      released = freed i;
      shutdown_flag = cleared i;
    })
    returns c flag (inl (well, freed, cleared)) failure e = absurd (ground arith)
    returns c flag (inr (inl (ill, kept))) success e = absurd (ground arith)
    returns c flag (inr (inl (ill, kept))) failure e =
        clean_fails m
          (λ i. record s { main_task = main_ended failure; shutdown_flag = (kept ∙ sym flag) i })
    returns c flag (inr (inr n)) o e = absurd (ground arith)
