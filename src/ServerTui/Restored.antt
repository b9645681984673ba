-- ===== src/ServerTui/Restored.antt =====
-- When `serve` gives the terminal back.
use hubtain.Common.{◌≡◌, ◌≢◌, refl, subst, ◌↔◌, ◌⊎◌, inl, inr, Bool, true, false}
use hubtain.ServerTui.Threads.{thread_ok, thread_err, thread_panics, thread_runs, tui_join}
use hubtain.ServerTui.Setup.{
  Terminal, Crossterm, StartEnd, started, start_error, start_panics, no_logger, console_logger,
  tui_logger, Logger, Rest, leaves_early, reaches_cleanup, set_logger, drop_tui, tui_start,
  serve_setup, render_gone, tui_close, after_setup, serve_terminal,
}

-- Neither raw mode nor the alternate screen is left on.
abbrev pub IsRestored : Terminal → Type 0
IsRestored t = (t.raw_mode ≡ false) × (t.alternate_screen ≡ false)

-- A system that can switch both modes off; whether it switches them on, it is told.
abbrev pub can_leave : (enables enters : Bool) → Crossterm
can_leave enables enters = record {
  enable_raw_mode = enables;
  enter_alternate_screen = enters;
  disable_raw_mode = true;
  leave_alternate_screen = true;
}

-- A terminal in neither mode.
abbrev pub plain : Logger → Bool → Terminal
plain logger logger_initted = record {
  raw_mode = false;
  alternate_screen = false;
  logger = logger;
  logger_initted = logger_initted;
}

abbrev up : Bool → Terminal
up logger_initted = record {
  raw_mode = true;
  alternate_screen = true;
  logger = tui_logger;
  logger_initted = logger_initted;
}

still_on : {A : Type 0} → ◌≡◌ {A = Bool} true false → A
still_on e = absurd (cc)

-- Behind a setup that has succeeded, only the way through both joins leaves the alternate screen.
after_setup-IsRestored :
    (initted : Bool) (rest : Rest)
    → IsRestored (after_setup (can_leave true true) rest started (up initted))
    → rest ≡ reaches_cleanup thread_ok thread_ok
unfolding after_setup tui_close render_gone drop_tui tui_join
after_setup-IsRestored i (leaves_early thread_ok) r = still_on r.1
after_setup-IsRestored i (leaves_early thread_err) r = still_on r.1
after_setup-IsRestored i (leaves_early thread_panics) r = still_on r.1
after_setup-IsRestored i (leaves_early thread_runs) r = still_on r.1
after_setup-IsRestored i (reaches_cleanup thread_ok thread_ok) r = refl
after_setup-IsRestored i (reaches_cleanup thread_ok thread_err) r = still_on r.1
after_setup-IsRestored i (reaches_cleanup thread_ok thread_panics) r = still_on r.1
after_setup-IsRestored i (reaches_cleanup thread_ok thread_runs) r = still_on r.1
after_setup-IsRestored i (reaches_cleanup thread_err events) r = still_on r.1
after_setup-IsRestored i (reaches_cleanup thread_panics events) r = still_on r.1
after_setup-IsRestored i (reaches_cleanup thread_runs events) r = still_on r.1

-- A setup that does not succeed leaves neither mode on.
failed_IsRestored :
    (enables enters is_tty : Bool) (l : Logger) (initted : Bool)
    → let (ending, t) = serve_setup (can_leave enables enters) is_tty true (plain l initted) in
      ((ending ≢ started) × IsRestored t)
      ⊎ ((ending ≡ started) × (enables ≡ true) × (enters ≡ true) × (t ≡ up initted))
unfolding serve_setup tui_start set_logger drop_tui
failed_IsRestored enables enters false l i = inl (λ e. absurd (cc), (refl, refl))
failed_IsRestored enables enters true console_logger i = inl (λ e. absurd (cc), (refl, refl))
failed_IsRestored enables enters true tui_logger i = inl (λ e. absurd (cc), (refl, refl))
failed_IsRestored false enters true no_logger i = inl (λ e. absurd (cc), (refl, refl))
failed_IsRestored true false true no_logger i = inl (λ e. absurd (cc), (refl, refl))
failed_IsRestored true true true no_logger i = inr (refl, refl, refl, refl)

-- `serve` behind a setup that did or did not succeed.
behind :
    (enables enters : Bool) (initted : Bool) (rest : Rest) (ending : StartEnd) (t : Terminal)
    → ((ending ≢ started) × IsRestored t)
      ⊎ ((ending ≡ started) × (enables ≡ true) × (enters ≡ true) × (t ≡ up initted))
    → IsRestored (after_setup (can_leave enables enters) rest ending t)
      ↔ ((ending ≢ started) ⊎ (rest ≡ reaches_cleanup thread_ok thread_ok))
unfolding after_setup tui_close render_gone drop_tui tui_join
behind enables enters i rest started t (inl (fails, h)) = absurd (fails refl)
behind enables enters i rest started t (inr (on, e, g, is)) = (
  λ r. inr (
      after_setup-IsRestored i rest (
        subst (λ t. IsRestored (after_setup (can_leave true true) rest started t)) is
          (subst (λ b. IsRestored (after_setup (can_leave b true) rest started t)) e
            (subst (λ b. IsRestored (after_setup (can_leave enables b) rest started t)) g r)))),
  λ h. elim h [ inl fails ↦ absurd (fails refl) | inr whole ↦ rw whole (refl, refl) ],
)
behind enables enters i rest start_error t (inl (fails, h)) = (λ r. inl fails, λ r. h)
behind enables enters i rest start_error t (inr (on, e, g, is)) = absurd (cc)
behind enables enters i rest start_panics t (inl (fails, h)) = (λ r. inl fails, λ r. h)
behind enables enters i rest start_panics t (inr (on, e, g, is)) = absurd (cc)

-- Suppose that raw mode and the alternate screen can be switched off. However the interface starts, and
-- however `serve` goes on, it leaves a terminal without raw mode and without the alternate screen just
-- if the setup did not succeed, or the cleanup is reached and both threads of the interface return `Ok`.
-- So an error that leaves `serve` before the cleanup leaves the alternate screen on.
pub serve_terminal-IsRestored_iff :
    (enables enters is_tty : Bool) (l : Logger) (initted : Bool) (rest : Rest)
    → let sys = can_leave enables enters in
      IsRestored (serve_terminal sys is_tty rest (plain l initted)) ↔ (
        ((serve_setup sys is_tty true (plain l initted)).0 ≢ started)
        ⊎ (rest ≡ reaches_cleanup thread_ok thread_ok))
unfolding serve_terminal
serve_terminal-IsRestored_iff enables enters is_tty l i rest =
    behind enables enters i rest _ _ (failed_IsRestored enables enters is_tty l i)

-- In a process that has set no logger, a server without an interface sets up the console's logger; then
-- another one can follow, which changes nothing, but the start of an interface panics.
serve_setup_again :
    (sys : Crossterm) (is_tty again : Bool)
    → let first = serve_setup sys is_tty false (plain no_logger false) in
      (first.0 ≡ started)
      × (serve_setup sys again false first.1 ≡ first)
      × ((serve_setup sys true true first.1).0 ≡ start_panics)
unfolding serve_setup tui_start set_logger
serve_setup_again sys is_tty again = (refl, refl, refl)
