-- ===== src/Serve/Release/Quit.antt =====
-- The user quits the interface: its two threads, the join, and the cleanup of `serve`.
use hubtain.Common.{
  ℕ, ◌≡◌, refl, ap, ◌∙◌, Bool, true, false, Bool-cases, inl, inr, if◌then◌else◌, List, [], ◌∷◌,
  ◌++◌, append-nil, Option, some, All,
}
use hubtain.ServerTui.{ServerTui, TermMsg, Event, returned, render}
use hubtain.ServerTui.Threads.{
  ThreadEnd, thread_ok, thread_panics, Turn, event_read, GoesOn, events_of, event_forwarder,
  tui_join, event_forwarder-append,
}
use hubtain.Approval.{ClientId}
use hubtain.ServerTui.RenderThread.{TerminalCalls, Came, render_thread, render_end}
use hubtain.Serve.{Handle}
use hubtain.Serve.Release.{ReleaseEnv, clean_panics, after_join, free_all, cleanup}

-- What the thread that forwards does at an event that nobody receives.
last_turn :
    (t : Turn) (ts : List Turn) (e : Event)
    → t.polled ≡ event_read e
    → t.receiver ≡ false
    → event_forwarder (t ∷ ts) ≡ ([], if t.shutdown then thread_ok else thread_panics)
unfolding event_forwarder
last_turn t ts e p r = elim (Bool-cases t.shutdown) [
  | inl on ↦ simp on
  | inr off ↦ simp (off, p, r)
]

join_last :
    (env : ReleaseEnv) (held : Handle) (flag b : Bool)
    → cleanup env (some (thread_ok, if b then thread_ok else thread_panics)) held flag ≡ (
        if b
        then free_all env held true
        else record { ending = clean_panics; freed = false; shutdown_flag = true })
unfolding cleanup after_join tui_join
join_last env held flag true = refl
join_last env held flag false = refl

-- Once the interface has returned, its other thread has sent each event of the turns before, in order;
-- and if there is one event more, it depends on the flag alone whether `serve` cleans up: if the
-- thread sees the flag before it reads the event, the handle is released as it would be without an
-- interface; if not, `serve` panics at the join, and keeps the tunnel or the port.
pub event_forwarder-cleanup :
    (env : ReleaseEnv) (held : Handle) (flag : Bool) (self : ServerTui)
    (script : List (Option TermMsg × Bool)) (front : List Turn) (t : Turn) (back : List Turn)
    (e : Event)
    → (render self script).2 ≡ returned
    → All GoesOn front
    → t.polled ≡ event_read e
    → t.receiver ≡ false
    → let (sent, ends) = event_forwarder (front ++ (t ∷ back)) in
      (sent ≡ events_of front)
      × (cleanup env (some (render_end (render self script).2, ends)) held flag ≡ (
          if t.shutdown
          then free_all env held true
          else record { ending = clean_panics; freed = false; shutdown_flag = true }))
event_forwarder-cleanup env held flag self script front t back e ends on p r =
    let whole = event_forwarder-append front (t ∷ back) on in
    let last = last_turn t back e p r in
    (
      ap (λ w. w.0) whole
          ∙ ap (λ (w : List TermMsg × ThreadEnd). events_of front ++ w.0) last
          ∙ append-nil (events_of front),
      (λ i.
            cleanup env
              (some (
                render_end (ends i),
                (ap (λ w. w.1) whole ∙ ap (λ (w : List TermMsg × ThreadEnd). w.1) last) i,
              ))
              held flag)
          ∙ join_last env held flag t.shutdown,
    )

-- Where the thread that draws panics, `serve` panics at its join, however the other thread ends, and keeps
-- the tunnel or the port.
render_thread-cleanup :
    (overflow_checks : Bool) (to_string : ClientId → List ℕ) (sys : TerminalCalls)
    (self : ServerTui) (cs : List Came) (env : ReleaseEnv) (events : ThreadEnd) (held : Handle)
    (flag : Bool)
    → let drawing = render_thread overflow_checks to_string sys self cs in
      drawing ≡ thread_panics
      → cleanup env (some (drawing, events)) held flag
        ≡ record { ending = clean_panics; freed = false; shutdown_flag = true }
unfolding cleanup after_join tui_join
render_thread-cleanup overflow_checks to_string sys self cs env events held flag panics =
    ap (λ e. cleanup env (some (e, events)) held flag) panics
