-- ===== src/ServerTui/RenderThread/Wide.antt =====
-- The thread that draws on a terminal that is wide enough.
use hubtain.Common.{
  ℕ, ◌≤◌, All, map, ◌≡◌, refl, Bool, true, Bool-cases, inl, inr, List, [], ◌∷◌, some, Option-cases,
  arith,
}
use hubtain.Approval.{ClientId}
use hubtain.ServerTui.{ServerTui, handle, render}
use hubtain.ServerTui.Frame.{Frame, draw}
use hubtain.ServerTui.RenderThread.{TerminalCalls, Came, render_loop, render_end}
use hubtain.ServerTui.RenderThread.Panics.{draw-none_iff}

module _ (overflow_checks : Bool) (to_string : ClientId → List ℕ) where
  -- A drawing on 5 columns or more.
  wide_draws :
      (width : ℕ) (self : ServerTui)
      → 5 ≤ width
      → (frame : Frame) × (draw overflow_checks to_string width self ≡ some frame)
  wide_draws width self wide = elim (Option-cases (draw overflow_checks to_string width self)) [
    | inl off ↦ absurd (
        let (checks, narrow, asked) = (draw-none_iff overflow_checks to_string width self).0 off in
        omega arith)
    | inr drawn ↦ drawn
  ]

  -- On a terminal of 5 columns or more, with calls that succeed, the thread ends as the loop of its messages.
  render_loop-render :
      (sys : TerminalCalls) (cs : List Came) (self : ServerTui)
      → sys.clear ≡ true
      → All (λ (c : Came). (width : ℕ) × (c.width ≡ some width) × (5 ≤ width)) cs
      → render_loop overflow_checks to_string sys self cs
        ≡ render_end (render self (map (λ (c : Came). (c.msg, c.shutdown)) cs)).2
  unfolding render_loop render
  render_loop-render sys [] self clears wide = refl
  render_loop-render sys (c ∷ cs) self clears ((width, sized, w), wide) =
      elim (Option-cases c.msg) [
        | inl ended ↦ rw ended refl
        | inr (msg, came) ↦ elim (Bool-cases (handle self msg).2) [
          | inl quits ↦ rw (came, quits, clears) refl
          | inr stays ↦
              let (frame, drawn) = wide_draws width (handle self msg).0 w in
              elim (Bool-cases c.shutdown) [
                | inl down ↦ rw (came, stays, sized, drawn, down, clears) refl
                | inr on ↦
                    rw (came, stays, sized, drawn, on)
                      (render_loop-render sys cs (handle self msg).0 clears wide)
              ]
        ]
      ]
