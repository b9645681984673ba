-- ===== src/Serve/Left/Ends.antt =====
-- When `serve` leaves the process of the tunnel, or the port of the gateway.
use hubtain.Common.{
  ℕ, ◌≡◌, refl, sym, ap, ◌∙◌, Bool, true, false, not, ◌&&◌, Bool-cases, ◌⊎◌, ◌↔◌, inl, inr, List,
  Option, none, some,
}
use hubtain.Addresses.{Ipv4Addr}
use hubtain.Server.{FileSrv, igd, ngrok, v4_addr}
use hubtain.Serve.{ngrok_handle, igd_handle, ServeEnv, get_external_addr, punch, is_interactive}
use hubtain.Serve.Tunnel.{
  NgrokRun, Announces, get_tunnel, announced_iff, get_tunnel-spawns, get_tunnel-some_iff,
}
use hubtain.Serve.Release.{ReleaseEnv, ngrok_shutdown, igd_free, free_handle}
use hubtain.Serve.Left.{is_mapped, Way, Cleans, serve_leaves, serve_keeps, outlives, punch_makes}
use hubtain.Serve.Left.Steps.{keeps-false_iff}

and_false : (b : Bool) → (b && false) ≡ false
and_false true = refl
and_false false = refl

ngrok_freed : (sys : ReleaseEnv) (url : List ℕ) → (free_handle sys (ngrok_handle url)).1 ≡ sys.kill
unfolding free_handle ngrok_shutdown
ngrok_freed sys url = elim (Bool-cases sys.kill) [
  | inl dies ↦ rw dies refl
  | inr lives ↦ rw lives refl
]

module _ (env : ServeEnv) (self : FileSrv) (ip : Ipv4Addr) (port : ℕ)
    (addr : self.tcp_sock ≡ v4_addr ip port)
    (ready : ((is_interactive self.client_approval_strategy && self.stay_alive) ≡ false)
      ⊎ ((env.is_tty && env.tui_starts) ≡ true)) where
  abbrev run : NgrokRun
  run = env.ngrok_run port

  ngrok_keeps-false_iff :
      self.holepuncher ≡ ngrok
      → (sys : ReleaseEnv) (way : Way)
      → (serve_keeps env sys self way ≡ false) ↔ (
          (run.spawns ≡ false)
          ⊎ ((url : List ℕ) × ((get_tunnel run).0 ≡ some url)
              × ((env.set_broadcast && env.local_addr) ≡ true)
              × Cleans way
              × ((free_handle sys (ngrok_handle url)).1 ≡ true)))
  unfolding punch punch_makes
  ngrok_keeps-false_iff hole =
      keeps-false_iff env self (get_tunnel run).0 ngrok_handle run.spawns (λ url. refl)
        (λ url on. ((get_tunnel-some_iff run url).0 on).0) (λ i. punch env (hole i) (addr i))
        ((λ i. punch_makes env (hole i) (addr i)) ∙ get_tunnel-spawns run) ready

  ngrok_outlives :
      self.holepuncher ≡ ngrok → outlives env self.holepuncher self.tcp_sock ≡ not run.exits
  ngrok_outlives hole = λ i. outlives env (hole i) (addr i)

  -- A server that tunnels through `ngrok`, and whose interface starts if it is to have one, leaves no
  -- `ngrok` process behind just if none has been spawned, or the process comes to its end by itself, or
  -- all of this holds: its output can be read and announces the tunnel behind other messages alone, the
  -- broadcast can be set and the socket's address be had, no error leaves the loop, the interface's
  -- threads, where it has them, end well, and the process can be killed. So every error between the
  -- spawn and the cleanup leaves a process that goes on.
  pub serve_leaves-false_iff :
      self.holepuncher ≡ ngrok
      → (sys : ReleaseEnv) (way : Way)
      → (serve_leaves env sys self way ≡ false) ↔ (
          (run.spawns ≡ false)
          ⊎ (run.exits ≡ true)
          ⊎ ((run.has_stdout ≡ true)
              × Announces run.from_str run.lines
              × ((env.set_broadcast && env.local_addr) ≡ true)
              × Cleans way
              × (sys.kill ≡ true)))
  unfolding serve_leaves
  serve_leaves-false_iff hole sys way =
      let steps = ngrok_keeps-false_iff hole sys way in
      let goes_on = ngrok_outlives hole in
      (
        λ e. elim (Bool-cases run.exits) [
          | inl exits ↦ inr (inl exits)
          | inr stays ↦ elim (steps.0 (rw (goes_on, stays) at e)) [
            | inl never ↦ inl never
            | inr (url, on, broad, cleans, frees) ↦
                let (spawned, piped, at) = (get_tunnel-some_iff run url).0 on in
                inr (
                  inr (
                    piped,
                    (announced_iff run.from_str run.lines).0 (url, at),
                    broad,
                    cleans,
                    sym (ngrok_freed sys url) ∙ frees,
                  ))
          ]
        ],
        λ h. elim h [
          | inl never ↦ unleft (steps.1 (inl never))
          | inr (inl exits) ↦ rw (goes_on, exits) refl
          | inr (inr (piped, announces, broad, cleans, dies)) ↦ elim (Bool-cases run.spawns) [
            | inl on ↦
                let (url, at) = (announced_iff run.from_str run.lines).1 announces in
                unleft (
                  steps.1 (
                    inr (
                      url,
                      (get_tunnel-some_iff run url).1 (on, piped, at),
                      broad,
                      cleans,
                      ngrok_freed sys url ∙ dies,
                    )))
            | inr off ↦ unleft (steps.1 (inl off))
          ]
        ],
      )
    where
      unleft :
          serve_keeps env sys self way ≡ false
          → (outlives env self.holepuncher self.tcp_sock && serve_keeps env sys self way) ≡ false
      unleft e = ap (◌&&◌ (outlives env self.holepuncher self.tcp_sock)) e ∙ and_false _

  -- A port that the gateway maps is not ended by `serve` unless there was none, or the broadcast can be set,
  -- no error leaves the loop, the threads end well, and the gateway removes it.
  port_keeps-false_iff :
      self.holepuncher ≡ igd
      → (sys : ReleaseEnv) (way : Way)
      → (serve_keeps env sys self way ≡ false) ↔ (
          (get_external_addr env port ≡ none)
          ⊎ ((mapped : ℕ) × (get_external_addr env port ≡ some mapped)
              × ((env.set_broadcast && env.local_addr) ≡ true)
              × Cleans way
              × (sys.remove_port ≡ true)))
  unfolding punch punch_makes free_handle igd_free
  port_keeps-false_iff hole sys way =
      let steps =
        keeps-false_iff env self (get_external_addr env port) igd_handle
          (is_mapped (get_external_addr env port)) (λ mapped. refl) (λ mapped on. ap is_mapped on)
          (λ i. punch env (hole i) (addr i)) (λ i. punch_makes env (hole i) (addr i)) ready sys
          way in
      (
        λ e. elim (steps.0 e) [ inl never ↦ inl (unmapped _ never) | inr h ↦ inr h ],
        λ h. elim h [ inl never ↦ steps.1 (inl (ap is_mapped never)) | inr h ↦ steps.1 (inr h) ],
      )
    where
      unmapped : (o : Option ℕ) → is_mapped o ≡ false → o ≡ none
      unmapped none e = refl
      unmapped (some mapped) e = absurd (cc)
