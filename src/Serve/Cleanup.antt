-- ===== src/Serve/Cleanup.antt =====
-- Where `serve` ends.
use hubtain.Common.{ℕ, suc, ◌≡◌, ◌≢◌, refl, sym, subst, ◌∙◌, Bool, true, false}
use hubtain.Serve.{
  success, failure, DataTask, checking, accepting, transferring, data_ended, MainTask,
  main_checking, listening, joining, cleaning, main_ended, State, Step, data_stop, data_go,
  accept_timeout, accept_fails, accept_many, accept_once, transfer_ends, main_stop, main_go,
  ping_timeout, ping_fails, ping, join_ok, join_fails, clean_ok, clean_fails, tui_quits, Reach,
  start, next,
}

-- What is known of `serve` at each point.
abbrev pub MainPhase : MainTask → State → Type 0
MainPhase main_checking s = s.released ≡ false
MainPhase listening s = s.released ≡ false
MainPhase joining s = s.released ≡ false
MainPhase cleaning s = (s.released ≡ false) × (s.data_task ≡ data_ended success)
MainPhase (main_ended success) s =
    (s.released ≡ true) × (s.data_task ≡ data_ended success) × (s.shutdown_flag ≡ false)
MainPhase (main_ended failure) s = s.released ≡ false

-- The data task and the interface leave it as it is.
data_turn :
    (m : MainTask) (s t : State)
    → MainPhase m s
    → t.released ≡ s.released
    → (s.data_task ≢ data_ended success)
    → MainPhase m t
data_turn main_checking s t h r d = r ∙ h
data_turn listening s t h r d = r ∙ h
data_turn joining s t h r d = r ∙ h
data_turn cleaning s t h r d = absurd (d h.1)
data_turn (main_ended success) s t h r d = absurd (d h.1)
data_turn (main_ended failure) s t h r d = r ∙ h

quit_turn :
    (m : MainTask) (s : State)
    → s.released ≡ false
    → MainPhase m s
    → MainPhase m (record s { shutdown_flag = true })
quit_turn main_checking s o h = h
quit_turn listening s o h = h
quit_turn joining s o h = h
quit_turn cleaning s o h = h
quit_turn (main_ended success) s o h =
    absurd (let p : ◌≡◌ {A = Bool} true false = sym h.0 ∙ o in cc)
quit_turn (main_ended failure) s o h = h

at_main : {m : MainTask} (s : State) → s.main_task ≡ m → MainPhase s.main_task s → MainPhase m s
at_main s e h = subst (λ m. MainPhase m s) e h

abbrev Keeps : State → State → Type 0
Keeps s t = MainPhase s.main_task s → MainPhase t.main_task t

-- A turn of the data task.
data-Keeps :
    (s : State) (d : DataTask) (flag : Bool) (n : ℕ)
    → s.data_task ≢ data_ended success
    → Keeps s (record s { data_task = d; shutdown_flag = flag; accepted = n })
data-Keeps s d flag n alive h =
    data_turn s.main_task s (record s { data_task = d; shutdown_flag = flag; accepted = n }) h refl
      alive

Step-MainPhase : {k tui : Bool} {s t : State} → Step k tui s t → Keeps s t
Step-MainPhase {s = s} (data_stop d f e) h =
    rw e (data-Keeps s (data_ended success) s.shutdown_flag s.accepted (λ x. cc) h)
Step-MainPhase {s = s} (data_go d f e) h =
    rw e (data-Keeps s accepting s.shutdown_flag s.accepted (λ x. cc) h)
Step-MainPhase {s = s} (accept_timeout d e) h =
    rw e (data-Keeps s checking s.shutdown_flag s.accepted (λ x. cc) h)
Step-MainPhase {s = s} (accept_fails d e) h =
    rw e (data-Keeps s (data_ended failure) s.shutdown_flag s.accepted (λ x. cc) h)
Step-MainPhase {s = s} (accept_many k d e) h =
    rw e (data-Keeps s checking s.shutdown_flag (suc s.accepted) (λ x. cc) h)
Step-MainPhase {s = s} (accept_once g k d e) h = rw e (
    data_turn s.main_task s
      (record s {
        data_task = transferring;
        accepted = suc s.accepted;
        shutdown_flag = true;
        stalled = g;
      })
      h refl (λ x. cc))
Step-MainPhase {s = s} (transfer_ends r d y e) h =
    rw e (data-Keeps s (data_ended r) s.shutdown_flag s.accepted (λ x. cc) h)
Step-MainPhase {s = s} (main_stop m f e) h = rw e (at_main s m h)
Step-MainPhase {s = s} (main_go m f e) h = rw e (at_main s m h)
Step-MainPhase {s = s} (ping_timeout m e) h = rw e (at_main s m h)
Step-MainPhase {s = s} (ping_fails m e) h = rw e (at_main s m h)
Step-MainPhase {k = true} {s = s} (ping m e) h = rw e (at_main s m h)
Step-MainPhase {k = false} {s = s} (ping m e) h = rw e (at_main s m h)
Step-MainPhase {s = s} (join_ok m d e) h = rw e (at_main s m h, d)
Step-MainPhase {s = s} (join_fails m d e) h = rw e (at_main s m h)
Step-MainPhase {s = s} (clean_ok m e) h = rw e (refl, (at_main s m h).1, refl)
Step-MainPhase {s = s} (clean_fails m e) h = rw e (at_main s m h).0
Step-MainPhase {s = s} (tui_quits k o e) h = rw e (quit_turn s.main_task s o h)

pub reach-MainPhase : {k tui : Bool} {s : State} → Reach k tui s → MainPhase s.main_task s
reach-MainPhase start = refl
reach-MainPhase (next r st) = Step-MainPhase st (reach-MainPhase r)

-- Where `serve` has returned `Ok`, `data_srv` has ended without an error, the interface is joined and
-- the handles are released, and the flag is cleared for the next run.
ended_success :
    {k tui : Bool} {s : State}
    → Reach k tui s
    → s.main_task ≡ main_ended success
    → (s.released ≡ true) × (s.data_task ≡ data_ended success) × (s.shutdown_flag ≡ false)
ended_success {s = s} r e = at_main s e (reach-MainPhase r)

-- Where `serve` has returned an error, from its loop, from `data_srv` or from the cleanup, the cleanup
-- was not completed.
ended_failure :
    {k tui : Bool} {s : State}
    → Reach k tui s
    → s.main_task ≡ main_ended failure
    → s.released ≡ false
ended_failure {s = s} r e = at_main s e (reach-MainPhase r)
