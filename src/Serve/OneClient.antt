-- ===== src/Serve/OneClient.antt =====
-- A server that does not stay alive, and its only client.
use hubtain.Common.{ℕ, ◌≤◌, ◌≡◌, refl, Bool, true, false, ◌⊎◌, inl, inr, arith}
use hubtain.Serve.{
  success, DataTask, checking, accepting, transferring, data_ended, main_checking, listening,
  joining, cleaning, main_ended, State, Step, data_stop, data_go, accept_timeout, accept_fails,
  accept_many, accept_once, transfer_ends, main_stop, main_go, ping_timeout, ping_fails, ping,
  join_ok, join_fails, clean_ok, clean_fails, tui_quits, Reach, start, next, Turns, here, turn,
}

-- While `data_srv` can still accept, nothing was accepted; after that one client at most.
abbrev OncePhase : DataTask → ℕ → Type 0
OncePhase checking n = n ≡ 0
OncePhase accepting n = n ≡ 0
OncePhase transferring n = n ≤ 1
OncePhase (data_ended r) n = n ≤ 1

Step-OncePhase :
    {tui : Bool} {s t : State}
    → Step false tui s t
    → OncePhase s.data_task s.accepted
    → OncePhase t.data_task t.accepted
Step-OncePhase (data_stop d f e) h = ground arith
Step-OncePhase (data_go d f e) h = ground arith
Step-OncePhase (accept_timeout d e) h = ground arith
Step-OncePhase (accept_fails d e) h = ground arith
Step-OncePhase (accept_many k d e) h = ground arith
Step-OncePhase (accept_once g k d e) h = ground arith
Step-OncePhase (transfer_ends r d y e) h = ground arith
Step-OncePhase (main_stop m f e) h = ground arith
Step-OncePhase (main_go m f e) h = ground arith
Step-OncePhase (ping_timeout m e) h = ground arith
Step-OncePhase (ping_fails m e) h = ground arith
Step-OncePhase (ping m e) h = ground arith
Step-OncePhase (join_ok m d e) h = ground arith
Step-OncePhase (join_fails m d e) h = ground arith
Step-OncePhase (clean_ok m e) h = ground arith
Step-OncePhase (clean_fails m e) h = ground arith
Step-OncePhase (tui_quits k o e) h = ground arith

reach-OncePhase : {tui : Bool} {s : State} → Reach false tui s → OncePhase s.data_task s.accepted
reach-OncePhase start = refl
reach-OncePhase (next r st) = Step-OncePhase st (reach-OncePhase r)

phase_bound : (d : DataTask) (n : ℕ) → OncePhase d n → n ≤ 1
phase_bound checking n h = omega arith
phase_bound accepting n h = omega arith
phase_bound transferring n h = h
phase_bound (data_ended r) n h = h

-- A server that does not stay alive accepts one client at most, in every order of the turns.
pub accepted-le-one : {tui : Bool} {s : State} → Reach false tui s → s.accepted ≤ 1
accepted-le-one {s = s} r = phase_bound s.data_task s.accepted (reach-OncePhase r)

-- A server that does not stay alive has the flag set from its only client on.
abbrev FlagSet : State → Type 0
FlagSet s = (s.accepted ≡ 0) ⊎ (s.shutdown_flag ≡ true) ⊎ (s.main_task ≡ main_ended success)

Step-FlagSet : {tui : Bool} {s t : State} → Step false tui s t → FlagSet s → FlagSet t
Step-FlagSet (data_stop d f e) h = ground arith
Step-FlagSet (data_go d f e) h = ground arith
Step-FlagSet (accept_timeout d e) h = ground arith
Step-FlagSet (accept_fails d e) h = ground arith
Step-FlagSet (accept_many o d e) h = ground arith
Step-FlagSet (accept_once g o d e) h = ground arith
Step-FlagSet (transfer_ends r d y e) h = ground arith
Step-FlagSet (main_stop m f e) h = ground arith
Step-FlagSet (main_go m f e) h = ground arith
Step-FlagSet (ping_timeout m e) h = ground arith
Step-FlagSet (ping_fails m e) h = ground arith
Step-FlagSet (ping m e) h = ground arith
Step-FlagSet (join_ok m d e) h = ground arith
Step-FlagSet (join_fails m d e) h = ground arith
Step-FlagSet (clean_ok m e) h = ground arith
Step-FlagSet (clean_fails m e) h = ground arith
Step-FlagSet (tui_quits o u e) h = ground arith

reach-FlagSet : {tui : Bool} {s : State} → Reach false tui s → FlagSet s
reach-FlagSet start = inl refl
reach-FlagSet (next r st) = Step-FlagSet st (reach-FlagSet r)

-- The end of a run, from the test of the flag on.
finish :
    {tui : Bool} {s₀ s : State}
    → Turns false tui s₀ s
    → s.main_task ≡ main_checking
    → s.shutdown_flag ≡ true
    → s.data_task ≡ data_ended success
    → (t : State) × Turns false tui s₀ t × (t.main_task ≡ main_ended success)
finish {tui} {s₀} {s} ts m f d =
    let s₁ : State = record s { main_task = joining } in
    let s₂ : State = record s { main_task = cleaning } in
    let s₃ : State = record s {
      main_task = main_ended success;
      released = true;
      shutdown_flag = false;
    } in
    (
      s₃,
      turn (turn (turn ts (main_stop m f refl)) (join_ok refl d refl)) (clean_ok refl refl),
      refl,
    )

flag_set :
    (s : State)
    → FlagSet s
    → s.accepted ≡ 1
    → (s.main_task ≡ main_checking) ⊎ (s.main_task ≡ listening)
    → s.shutdown_flag ≡ true
flag_set s h n m = ground arith

-- A server that does not stay alive can always end once its client is served: in every run in which
-- `data_srv` has ended well after a client, and `serve` waits for a ping or is about to look at the
-- flag, some further turns lead to its successful end.
served_can_end :
    {tui : Bool} {s : State}
    → Reach false tui s
    → s.data_task ≡ data_ended success
    → s.accepted ≡ 1
    → (s.main_task ≡ main_checking) ⊎ (s.main_task ≡ listening)
    → (t : State) × Turns false tui s t × (t.main_task ≡ main_ended success)
served_can_end {s = s} r d n (inl m) = finish here m (flag_set s (reach-FlagSet r) n (inl m)) d
served_can_end {s = s} r d n (inr m) =
    finish (turn here (ping_timeout m refl)) refl (flag_set s (reach-FlagSet r) n (inr m)) d
