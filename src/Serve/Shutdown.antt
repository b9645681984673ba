-- ===== src/Serve/Shutdown.antt =====
-- What is left to do for both tasks once `SHUTDOWN_FLAG` is set.
use hubtain.Common.{Bool-cases, ℕ, ◌+◌, ◌≤◌, ◌≡◌, refl, Bool, true, ◌⊎◌, inl, inr, arith}
use hubtain.Serve.{
  Outcome, success, failure, DataTask, checking, accepting, transferring, data_ended, MainTask,
  main_checking, listening, joining, cleaning, main_ended, State, Step, data_stop, data_go,
  accept_timeout, accept_fails, accept_many, accept_once, transfer_ends, main_stop, main_go,
  ping_timeout, ping_fails, ping, join_ok, join_fails, clean_ok, clean_fails, tui_quits, Reach,
  next, Turns, here, turn,
}
use hubtain.Serve.Cleanup.{MainPhase, reach-MainPhase}

-- How many turns a task has left at most, once the flag is set.
abbrev pub data_left : DataTask → ℕ
data_left checking = 1
data_left accepting = 2
data_left transferring = 1
data_left (data_ended r) = 0

abbrev pub main_left : MainTask → ℕ
main_left main_checking = 3
main_left listening = 4
main_left joining = 2
main_left cleaning = 1
main_left (main_ended r) = 0

abbrev pub left : State → ℕ
left s = data_left s.data_task + main_left s.main_task

-- The turns of the two tasks: the user's key is none.
abbrev pub work : {k tui : Bool} {s t : State} → Step k tui s t → ℕ
work (tui_quits k o e) = 0
work (data_stop d f e) = 1
work (data_go d f e) = 1
work (accept_timeout d e) = 1
work (accept_fails d e) = 1
work (accept_many k d e) = 1
work (accept_once g k d e) = 1
work (transfer_ends r d y e) = 1
work (main_stop m f e) = 1
work (main_go m f e) = 1
work (ping_timeout m e) = 1
work (ping_fails m e) = 1
work (ping m e) = 1
work (join_ok m d e) = 1
work (join_fails m d e) = 1
work (clean_ok m e) = 1
work (clean_fails m e) = 1

unfoldable pub task_turns : {k tui : Bool} {s t : State} → Turns k tui s t → ℕ
task_turns here = 0
task_turns (turn ts st) = task_turns ts + work st

-- The flag is set, or both tasks have ended.
abbrev Closing : State → Type 0
Closing s = (s.shutdown_flag ≡ true) ⊎ (left s ≡ 0)

-- When `serve` cleans up, `data_srv` has ended.
cleaning_data :
    (m : MainTask) (s : State) → MainPhase m s → m ≡ cleaning → data_left s.data_task ≡ 0
cleaning_data cleaning s h e = rw (h.1)
cleaning_data main_checking s h e = cc
cleaning_data listening s h e = cc
cleaning_data joining s h e = cc
cleaning_data (main_ended r) s h e = cc

abbrev Falls : {k tui : Bool} {s t : State} → Step k tui s t → Type 0
Falls {s = s} {t = t} st = Closing t × (work st + left t ≤ left s)

Step-Falls :
    {k tui : Bool} {s t : State} (st : Step k tui s t)
    → (s.main_task ≡ cleaning → data_left s.data_task ≡ 0)
    → Closing s
    → Falls st
Step-Falls (data_stop d f e) z h = ground arith
Step-Falls (data_go d f e) z h = ground arith
Step-Falls (accept_timeout d e) z h = ground arith
Step-Falls (accept_fails d e) z h = ground arith
Step-Falls (accept_many o d e) z h = ground arith
Step-Falls (accept_once g o d e) z h = ground arith
Step-Falls (transfer_ends r d y e) z h = ground arith
Step-Falls (main_stop m f e) z h = ground arith
Step-Falls (main_go m f e) z h = ground arith
Step-Falls (ping_timeout m e) z h = ground arith
Step-Falls (ping_fails m e) z h = ground arith
Step-Falls (ping m e) z h = ground arith
Step-Falls (join_ok m d e) z h = ground arith
Step-Falls (join_fails m d e) z h = ground arith
Step-Falls (clean_ok m e) z h = let zero_left = z m in ground arith
Step-Falls (clean_fails m e) z h = ground arith
Step-Falls (tui_quits o u e) z h = ground arith

reach_later : {k tui : Bool} {s t : State} → Reach k tui s → Turns k tui s t → Reach k tui t
reach_later r here = r
reach_later r (turn ts st) = next (reach_later r ts) st

turns-Closing :
    {k tui : Bool} {s t : State}
    → Reach k tui s
    → Closing s
    → (ts : Turns k tui s t) → Closing t × (task_turns ts + left t ≤ left s)
unfolding task_turns
turns-Closing r h here = (h, omega arith)
turns-Closing {s = s} r h (turn {t} ts st) =
    let (closing, spent) = turns-Closing r h ts in
    let safe = cleaning_data t.main_task t (reach-MainPhase (reach_later r ts)) in
    let (closing', falls) = Step-Falls st safe closing in (closing', omega arith)

-- A turn that a task can take, from each place in the code.
abbrev pub CanMove : (k tui : Bool) → State → Type 0
CanMove k tui s = (t : State) × (st : Step k tui s t) × (work st ≡ 1)

-- `data_srv` awaits its only transfer, whose client never lets it end; or `serve` is at its cleanup, which
-- joins the interface's threads.
abbrev pub Waits : State → Type 0
Waits s = ((s.data_task ≡ transferring) × (s.stalled ≡ true)) ⊎ (s.main_task ≡ cleaning)

join_moves :
    {k tui : Bool} (s : State) (r : Outcome)
    → s.main_task ≡ joining
    → s.data_task ≡ data_ended r
    → CanMove k tui s
join_moves s success m d = (record s { main_task = cleaning }, join_ok m d refl, refl)
join_moves s failure m d = (record s { main_task = main_ended failure }, join_fails m d refl, refl)

main_moves :
    {k tui : Bool} (s : State) (m : MainTask) (r : Outcome)
    → s.main_task ≡ m
    → s.data_task ≡ data_ended r
    → s.shutdown_flag ≡ true
    → CanMove k tui s ⊎ (s.main_task ≡ cleaning) ⊎ (main_left m ≡ 0)
main_moves s main_checking r m d f =
    inl (record s { main_task = joining }, main_stop m f refl, refl)
main_moves s listening r m d f =
    inl (record s { main_task = main_checking }, ping_timeout m refl, refl)
main_moves s joining r m d f = inl (join_moves s r m d)
main_moves s cleaning r m d f = inr (inl m)
main_moves s (main_ended o) r m d f = inr (inr refl)

data_moves :
    {k tui : Bool} (s : State) (d : DataTask)
    → s.data_task ≡ d
    → s.shutdown_flag ≡ true
    → CanMove k tui s ⊎ Waits s ⊎ (left s ≡ 0)
data_moves s checking d f =
    inl (record s { data_task = data_ended success }, data_stop d f refl, refl)
data_moves s accepting d f = inl (record s { data_task = checking }, accept_timeout d refl, refl)
data_moves s transferring d f = elim (Bool-cases s.stalled) [
  | inl stalls ↦ inr (inl (inl (d, stalls)))
  | inr flows ↦
      inl (record s { data_task = data_ended success }, transfer_ends success d flows refl, refl)
]
data_moves s (data_ended r) d f = elim (main_moves s s.main_task r refl d f) [
  | inl moves ↦ inl moves
  | inr (inl cleans) ↦ inr (inl (inr cleans))
  | inr (inr ended) ↦ inr (inr (rw d (omega arith)))
]

-- Once the flag is set, in whatever order the tasks take their turns, with whatever results, and
-- whatever keys the user presses, the tasks take no more turns than `left` counts, which is 6 at most;
-- and as long as one of them has not ended, a task can take a turn, unless `data_srv` awaits its only
-- transfer, which stalls, or `serve` is at its cleanup, which may wait for the interface's threads.
pub shutdown_ends :
    {k tui : Bool} {s t : State} (r : Reach k tui s) (ts : Turns k tui s t)
    → s.shutdown_flag ≡ true
    → (task_turns ts + left t ≤ left s) × (left s ≤ 6) × (CanMove k tui t ⊎ Waits t ⊎ (left t ≡ 0))
shutdown_ends {s = s} {t = t} r ts f =
    let (closing, spent) = turns-Closing r (inl f) ts in
    (
      spent,
      left_bound s.data_task s.main_task,
      elim closing [ inl set ↦ data_moves t t.data_task refl set | inr ended ↦ inr (inr ended) ],
    )
  where
    left_bound : (d : DataTask) (m : MainTask) → data_left d + main_left m ≤ 6
    left_bound d m = ground arith
