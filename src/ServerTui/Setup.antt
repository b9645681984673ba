-- ===== src/ServerTui/Setup.antt =====
-- The logger and the terminal: tui/mod.rs (`init_console_logger`), server/tui.rs (`ServerTui::start`, the
-- drop of ServerTui, `TuiHandle::join`), and server/mod.rs where `serve` calls them.
use hubtain.Common.{Bool, true, false, Option, none, some, if◌then◌else◌}
use hubtain.ServerTui.Threads.{
  ThreadEnd, thread_ok, thread_err, thread_panics, thread_runs, JoinEnd, joined, join_panics,
  join_waits, tui_join,
}

-- The logger of the crate `log`, of which a process sets one.
pub data Logger : Type 0 where
  no_logger console_logger tui_logger : Logger

-- What the process holds of the terminal, its logger, and `LOGGER_INITTED`.
pub record Terminal : Type 0 where
  pub raw_mode : Bool
  pub alternate_screen : Bool
  pub logger : Logger
  pub logger_initted : Bool

-- Whether the calls of the crate `crossterm` succeed. One that fails leaves the terminal as it is.
pub record Crossterm : Type 0 where
  pub enable_raw_mode : Bool
  pub enter_alternate_screen : Bool
  pub disable_raw_mode : Bool
  pub leave_alternate_screen : Bool

-- Started, an error, or a panic.
pub data StartEnd : Type 0 where
  started start_error start_panics : StartEnd

-- `log::set_logger`
unfoldable pub set_logger : Logger → Terminal → Option Terminal
set_logger logger t = elim t.logger [
  | no_logger ↦ some (record t { logger = logger })
  | console_logger ↦ none
  | tui_logger ↦ none
]

-- `init_console_logger`: `none` stands for the panic of `init`.
init_console_logger : Terminal → Option Terminal
unfolding set_logger
init_console_logger t =
    if t.logger_initted
    then some t
    else set_logger console_logger (record t { logger_initted = true })

-- The drop of ServerTui.
unfoldable pub drop_tui : Crossterm → Terminal → Terminal
drop_tui sys t = if sys.disable_raw_mode then record t { raw_mode = false } else t

-- `ServerTui::start`. Where it does not hand the interface to its thread, it drops it.
unfoldable pub tui_start : Crossterm → Terminal → StartEnd × Terminal
unfolding set_logger drop_tui
tui_start sys t = elim (set_logger tui_logger t) [
  | none ↦ (start_panics, drop_tui sys t)
  | some logs ↦
      if sys.enable_raw_mode
      then (let raw = record logs { raw_mode = true } in
          if sys.enter_alternate_screen
          then (started, record raw { alternate_screen = true })
          else (start_error, drop_tui sys raw))
      else (start_error, drop_tui sys logs)
]

-- The setup in `serve`, by whether the standard output is a terminal (`is_interactive`), and whether
-- the server asks its user and stays alive.
unfoldable pub serve_setup : Crossterm → Bool → Bool → Terminal → StartEnd × Terminal
unfolding tui_start init_console_logger
serve_setup sys is_tty wants_tui t =
    if wants_tui
    then if is_tty then tui_start sys t else (start_error, t)
    else elim (init_console_logger t) [ none ↦ (start_panics, t) | some logs ↦ (started, logs) ]

-- The interface is dropped when its thread ends, however it ends.
unfoldable pub render_gone : Crossterm → ThreadEnd → Terminal → Terminal
unfolding drop_tui
render_gone sys thread_ok t = drop_tui sys t
render_gone sys thread_err t = drop_tui sys t
render_gone sys thread_panics t = drop_tui sys t
render_gone sys thread_runs t = t

-- `TuiHandle::join` on the terminal: the alternate screen is left behind the joins.
unfoldable pub tui_close : Crossterm → (render events : ThreadEnd) → Terminal → JoinEnd × Terminal
unfolding render_gone
tui_close sys render events t =
    let gone = render_gone sys render t in
    let ending = tui_join render events in
    (
      ending,
      elim ending [
        | joined ↦
            if sys.leave_alternate_screen then record gone { alternate_screen = false } else gone
        | join_panics ↦ gone
        | join_waits ↦ gone
      ],
    )

-- How `serve` goes on after its setup: an error leaves it before its cleanup, while the interface's thread
-- is where it is; or its cleanup joins the two threads.
pub data Rest : Type 0 where
  leaves_early : (render : ThreadEnd) → Rest
  reaches_cleanup : (render events : ThreadEnd) → Rest

-- The terminal behind the setup, with an interface.
unfoldable pub after_setup : Crossterm → Rest → StartEnd → Terminal → Terminal
unfolding tui_close
after_setup sys (leaves_early render) started up = render_gone sys render up
after_setup sys (reaches_cleanup render events) started up = (tui_close sys render events up).1
after_setup sys rest start_error up = up
after_setup sys rest start_panics up = up

-- The terminal that `serve` leaves, with an interface.
unfoldable pub serve_terminal : Crossterm → Bool → Rest → Terminal → Terminal
unfolding serve_setup after_setup
serve_terminal sys is_tty rest t =
    let (ending, up) = serve_setup sys is_tty true t in after_setup sys rest ending up
