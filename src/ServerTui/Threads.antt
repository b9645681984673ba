-- ===== src/ServerTui/Threads.antt =====
-- tui/mod.rs (`TuiLogger`, `event_forwarder`) and server/tui.rs (`TuiHandle`): what goes into the channel of
-- the interface, and how its two threads end.
use hubtain.Common.{
  ◌≡◌, refl, Bool, true, false, ◌⊎◌, inl, inr, if◌then◌else◌, List, [], ◌∷◌, ◌++◌, ℕ, Option, none,
  some, All,
}
use hubtain.ServerTui.{TermMsg, log, input, Event}

-- A thread returned `Ok`, returned an error, panicked, or still runs.
pub data ThreadEnd : Type 0 where
  thread_ok thread_err thread_panics thread_runs : ThreadEnd

-- `TuiLogger::log`: the message for the interface, or, with the receiver gone, the panic of `expect`
-- (`none`). A fresh clone of a sender has a slot of its own, so the channel is never full.
unfoldable logger_log : (receiver : Bool) → List ℕ → Option TermMsg
logger_log receiver args = if receiver then some (log args) else none

-- What `event::poll` and `event::read` give.
pub data Polled : Type 0 where
  poll_fails quiet read_fails : Polled
  event_read : Event → Polled

-- One turn of the loop in `event_forwarder`: the load of `SHUTDOWN_FLAG`, the event, and whether the
-- interface still receives when the event is sent.
pub record Turn : Type 0 where
  pub shutdown : Bool
  pub polled : Polled
  pub receiver : Bool

unfoldable pub event_forwarder : List Turn → List TermMsg × ThreadEnd
event_forwarder [] = ([], thread_runs)
event_forwarder (t ∷ ts) =
    let (sent, ending) = event_forwarder ts in
    if t.shutdown then ([], thread_ok) else elim t.polled [
      | poll_fails ↦ ([], thread_err)
      | quiet ↦ (sent, ending)
      | read_fails ↦ ([], thread_err)
      | event_read e ↦ if t.receiver then (input e ∷ sent, ending) else ([], thread_panics)
    ]

-- How `TuiHandle::join` ends.
pub data JoinEnd : Type 0 where
  joined join_panics join_waits : JoinEnd

-- `expect` and `unwrap` on the end of one thread, with what follows.
abbrev pub join_thread : ThreadEnd → JoinEnd → JoinEnd
join_thread thread_ok next = next
join_thread thread_err next = join_panics
join_thread thread_panics next = join_panics
join_thread thread_runs next = join_waits

-- `TuiHandle::join`, on how the threads end once the flag is set.
unfoldable pub tui_join : (render events : ThreadEnd) → JoinEnd
tui_join render events = join_thread render (join_thread events joined)

-- A turn that goes on: the flag is not set, and if there is an event, it is sent.
abbrev pub GoesOn : Turn → Type 0
GoesOn t =
    (t.shutdown ≡ false)
    × ((t.polled ≡ quiet) ⊎ ((e : Event) × (t.polled ≡ event_read e) × (t.receiver ≡ true)))

abbrev pub sent_by : Polled → List TermMsg
sent_by poll_fails = []
sent_by quiet = []
sent_by read_fails = []
sent_by (event_read e) = input e ∷ []

-- The events of these turns, in order.
abbrev pub events_of : List Turn → List TermMsg
events_of [] = []
events_of (t ∷ ts) = sent_by t.polled ++ events_of ts

-- Turns that go on send their events, and the thread does what it does from there.
pub event_forwarder-append :
    (front rest : List Turn)
    → All GoesOn front
    → event_forwarder (front ++ rest)
      ≡ (events_of front ++ (event_forwarder rest).0, (event_forwarder rest).1)
unfolding event_forwarder
event_forwarder-append [] rest h = refl
event_forwarder-append (t ∷ ts) rest ((on, inl q), h) =
    simp (on, q, event_forwarder-append ts rest h)
event_forwarder-append (t ∷ ts) rest ((on, inr (e, q, r)), h) =
    simp (on, q, r, event_forwarder-append ts rest h)
