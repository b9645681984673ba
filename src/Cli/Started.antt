-- ===== src/Cli/Started.antt =====
-- The server that the command line starts.
use hubtain.Common.{
  ◌≡◌, refl, sym, ap, Bool, true, false, not, ◌&&◌, ◌⊎◌, ◌∙◌, if◌then◌else◌, Bool-cases, inl, inr,
  none, some, arith,
}
use hubtain.Approval.{interactive, approve_all}
use hubtain.Files.{AsyncFileReader}
use hubtain.Server.{
  FileSrv, BuildEnv, new, set_udp_port, set_stayalive, set_encryption, set_holepuncher, build,
}
use hubtain.Server.Builder.{build_fields}
use hubtain.Serve.{ServeEnv, Started, begin, is_interactive}
use hubtain.Cli.{SrvFlags, srv_builder, chosen_holepuncher}

flag_interactive :
    (no_encryption : Bool)
    → is_interactive (if no_encryption then approve_all else interactive) ≡ not no_encryption
flag_interactive true = refl
flag_interactive false = refl

-- What a start of any server says of the interface.
starts :
    (host : ServeEnv) (srv : FileSrv) (st : Started)
    → begin host srv ≡ some st
    → (st.tui ≡ (is_interactive srv.client_approval_strategy && srv.stay_alive))
      × ((st.tui ≡ false) ⊎ (host.is_tty ≡ true))
unfolding begin
starts host srv st e = ground arith

module _ (env : BuildEnv) (reader : AsyncFileReader) (sc : SrvFlags) (srv : FileSrv)
    (built : build env (srv_builder reader sc) ≡ some srv) where
  -- The server that the command line builds encrypts and asks for each client unless
  -- `--no-encryption` is given, and then does neither; it stays alive as `--stayalive` says, uses
  -- the hole puncher of the flags, and has the opened reader with the length that it knows.
  pub srv_builder-build :
      (srv.encrypted ≡ not sc.no_encryption)
      × (srv.client_approval_strategy ≡ (if sc.no_encryption then approve_all else interactive))
      × (srv.stay_alive ≡ sc.stayalive)
      × (srv.holepuncher ≡ chosen_holepuncher sc)
      × (srv.data_length ≡ reader.file_size)
      × (srv.content ≡ reader)
  unfolding build srv_builder new set_udp_port set_stayalive set_encryption set_holepuncher
      chosen_holepuncher
  srv_builder-build =
      let fields = build_fields env (srv_builder reader sc) srv built in
      elim (Bool-cases sc.no_encryption) [
        | inl e ↦
            (ground arith, ground arith, ground arith, ground arith, ground arith, ground arith)
        | inr e ↦
            (ground arith, ground arith, ground arith, ground arith, ground arith, ground arith)
      ]

  -- With encryption and `--stayalive` the server that the command line builds does not start where
  -- the terminal is not interactive: `serve` ends with an error before its loop.
  begin_no_tty :
      (host : ServeEnv)
      → sc.no_encryption ≡ false
      → sc.stayalive ≡ true
      → host.is_tty ≡ false
      → begin host srv ≡ none
  unfolding begin
  begin_no_tty host on stays no_tty =
      let (encrypts, asks, alive, hole, len, same) = srv_builder-build in
      rw (asks, on, alive, stays, no_tty) refl

  -- A server that the command line builds, and that comes to its loop, runs the terminal interface just
  -- if it encrypts and stays alive, that is with `--stayalive` and without `--no-encryption`, and then
  -- in a terminal that is interactive; it asks for each client if and only if it encrypts.
  pub begin-srv_builder :
      (host : ServeEnv) (st : Started)
      → begin host srv ≡ some st
      → (st.tui ≡ (not sc.no_encryption && sc.stayalive))
        × ((st.tui ≡ false) ⊎ (host.is_tty ≡ true))
        × (srv.encrypted ≡ not sc.no_encryption)
        × (is_interactive srv.client_approval_strategy ≡ srv.encrypted)
  begin-srv_builder host st begun =
      let (encrypts, asks, alive, hole, len, same) = srv_builder-build in
      let ran = starts host srv st begun in
      let interacts : is_interactive srv.client_approval_strategy ≡ not sc.no_encryption =
        ap is_interactive asks ∙ flag_interactive sc.no_encryption in
      (ran.0 ∙ (λ i. interacts i && alive i), ran.1, encrypts, interacts ∙ sym encrypts)
