-- ===== src/ServerTui/RenderThread/Panics.antt =====
-- When the thread that draws panics.
use hubtain.Common.{
  ℕ, ◌<◌, ◌≡◌, refl, ap, ◌∙◌, Bool, true, false, Bool-cases, ◌&&◌, ◌⊎◌, ◌↔◌, inl, inr,
  if◌then◌else◌, List, [], ◌∷◌, ◌++◌, Option, none, some, Option-cases, arith, length, leb, leb→le,
  leb_false→lt,
}
use hubtain.Approval.{ClientId}
use hubtain.ServerTui.{ServerTui, TermMsg, handle, client_line, chop_id_at}
use hubtain.ServerTui.Frame.{Frame, client_items, draw}
use hubtain.ServerTui.Threads.{thread_ok, thread_err, thread_panics}
use hubtain.ServerTui.RenderThread.{TerminalCalls, Came, render_loop, render_thread}

-- The state behind these messages.
abbrev pub after : ServerTui → List Came → ServerTui
after self [] = self
after self (c ∷ cs) = elim c.msg [ none ↦ self | some msg ↦ after (handle self msg).0 cs ]

module _ (overflow_checks : Bool) (to_string : ClientId → List ℕ) where
  -- Each of these messages is drawn, and the loop goes on behind it.
  abbrev pub GoesOn : ServerTui → List Came → Type 0
  GoesOn self [] = Unit
  GoesOn self (c ∷ cs) =
      (msg : TermMsg) × (width : ℕ) × (frame : Frame) × (c.msg ≡ some msg)
      × ((handle self msg).2 ≡ false)
      × (c.width ≡ some width)
      × (draw overflow_checks to_string width (handle self msg).0 ≡ some frame)
      × (c.shutdown ≡ false)
      × GoesOn (handle self msg).0 cs

  -- The channel has ended; or overflow is checked, and a list with a client in it is to be drawn in fewer than
  -- 5 columns.
  abbrev pub Breaks : ServerTui → Came → Type 0
  Breaks self c =
      (c.msg ≡ none)
      ⊎ ((msg : TermMsg) × (width : ℕ) × (c.msg ≡ some msg)
          × ((handle self msg).2 ≡ false)
          × (c.width ≡ some width)
          × (overflow_checks ≡ true)
          × (width < 5)
          × (0 < length (handle self msg).0.clients))

  client_line-none_iff :
      (width : ℕ) (name : List ℕ)
      → (client_line overflow_checks width name ≡ none) ↔ ((overflow_checks ≡ true) × (width < 5))
  unfolding client_line chop_id_at
  client_line-none_iff width name = elim (Bool-cases (leb 5 width)) [
    | inl wide ↦ rw wide (λ e. absurd (cc), λ h. absurd (omega (arith, leb→le 5 width wide, h.1)))
    | inr narrow ↦ rw narrow (elim (Bool-cases overflow_checks) [
      | inl on ↦ rw on (λ e. (refl, leb_false→lt 5 width narrow), λ h. refl)
      | inr off ↦ rw off (λ e. absurd (cc), λ h. absurd (cc))
    ])
  ]

  client_items-none_iff :
      (width : ℕ) (clients : List (ClientId × ℕ))
      → (client_items overflow_checks to_string width clients ≡ none)
        ↔ ((overflow_checks ≡ true) × (width < 5) × (0 < length clients))
  unfolding client_items
  client_items-none_iff width [] = (λ e. absurd (cc), λ h. absurd (omega (arith, h.2)))
  client_items-none_iff width (s ∷ clients) =
      let line = client_line-none_iff width (to_string s.0) in
      let later = client_items-none_iff width clients in
      elim (Option-cases (client_line overflow_checks width (to_string s.0))) [
        | inl off ↦
            let (checks, narrow) = line.0 off in
            (λ e. (checks, narrow, omega arith), λ h. rw (off, client_items) refl)
        | inr (l, on) ↦ (
          λ e. elim (Option-cases (client_items overflow_checks to_string width clients)) [
            | inl off ↦
                let (checks, narrow, some_client) = later.0 off in (checks, narrow, omega arith)
            | inr (items, all) ↦ absurd (
                let p : ◌≡◌ {A = Option (List (List ℕ))} (some (l ∷ items)) none =
                  rw (client_items, on, all) at e in
                cc)
          ],
          λ h. absurd (let q = line.1 (h.0, h.1) in cc),
        )
      ]

  pub draw-none_iff :
      (width : ℕ) (self : ServerTui)
      → (draw overflow_checks to_string width self ≡ none)
        ↔ ((overflow_checks ≡ true) × (width < 5) × (0 < length self.clients))
  unfolding draw
  draw-none_iff width self =
      let items = client_items-none_iff width self.clients in
      elim (Option-cases (client_items overflow_checks to_string width self.clients)) [
        | inl off ↦ (λ e. items.0 off, λ h. rw off refl)
        | inr (all, on) ↦ (
          λ e. absurd (let p : ◌≡◌ {A = Option Frame} (some _) none = rw on at e in cc),
          λ h. absurd (let q = items.1 h in cc),
        )
      ]

  cleared-ne-panics : (b : Bool) → ¬ ((if b then thread_ok else thread_err) ≡ thread_panics)
  cleared-ne-panics true e = absurd (cc)
  cleared-ne-panics false e = absurd (cc)

  abbrev pub BreaksIn : ServerTui → List Came → Type 0
  BreaksIn self cs =
      (front : List Came) × (c : Came) × (back : List Came) × (cs ≡ front ++ (c ∷ back))
      × GoesOn self front
      × Breaks (after self front) c

  panics_here :
      (sys : TerminalCalls) (self : ServerTui) (c : Came) (back : List Came)
      → Breaks self c
      → render_loop overflow_checks to_string sys self (c ∷ back) ≡ thread_panics
  unfolding render_loop
  panics_here sys self c back (inl ended) = rw ended refl
  panics_here sys self c back (inr (msg, width, came, stays, sized, checks, narrow, asked)) =
      let none_drawn = (draw-none_iff width (handle self msg).0).1 (checks, narrow, asked) in
      rw (came, stays, sized, none_drawn) refl

  goes_on :
      (sys : TerminalCalls) (self : ServerTui) (c : Came) (cs : List Came)
      → (h : GoesOn self (c ∷ []))
      → (render_loop overflow_checks to_string sys self (c ∷ cs)
          ≡ render_loop overflow_checks to_string sys (handle self h.0).0 cs)
  unfolding render_loop
  goes_on sys self c cs (msg, width, frame, came, stays, sized, drawn, on, more) =
      rw (render_loop, came, stays, sized, drawn, on) refl

  breaks :
      (sys : TerminalCalls) (self : ServerTui) (cs : List Came)
      → render_loop overflow_checks to_string sys self cs ≡ thread_panics
      → BreaksIn self cs
  unfolding render_loop
  breaks sys self [] e = absurd (cc)
  breaks sys self (c ∷ cs) e = elim (Option-cases c.msg) [
    | inl ended ↦ ([], c, cs, refl, tt, inl ended)
    | inr (msg, came) ↦ elim (Bool-cases (handle self msg).2) [
      | inl quits ↦ absurd (cleared-ne-panics sys.clear (rw (came, quits) at e))
      | inr stays ↦ elim (Option-cases c.width) [
        | inl fails ↦
            absurd (let p : thread_err ≡ thread_panics = rw (came, stays, fails) at e in cc)
        | inr (width, sized) ↦
            let next = (handle self msg).0 in
            elim (Option-cases (draw overflow_checks to_string width next)) [
              | inl off ↦
                  let (checks, narrow, asked) = (draw-none_iff width next).0 off in
                  ([], c, cs, refl, tt, inr (msg, width, came, stays, sized, checks, narrow, asked))
              | inr (frame, drawn) ↦ elim (Bool-cases c.shutdown) [
                | inl down ↦
                    absurd (cleared-ne-panics sys.clear (rw (came, stays, sized, drawn, down) at e))
                | inr on ↦
                    let (front, d, back, split, goes, is) =
                      breaks sys next cs (rw (came, stays, sized, drawn, on) at e) in
                    (
                      c ∷ front,
                      d,
                      back,
                      ap (◌∷◌ c) split,
                      (msg, width, frame, came, stays, sized, drawn, on, goes),
                      rw came is,
                    )
              ]
            ]
      ]
    ]
  ]

  panics_behind :
      (sys : TerminalCalls) (self : ServerTui) (front : List Came) (c : Came) (back : List Came)
      → GoesOn self front
      → Breaks (after self front) c
      → render_loop overflow_checks to_string sys self (front ++ (c ∷ back)) ≡ thread_panics
  panics_behind sys self [] c back goes is = panics_here sys self c back is
  panics_behind sys self (d ∷ front) c back (msg, width, frame, came, stays, sized, drawn, on, more)
        is =
      goes_on sys self d (front ++ (c ∷ back))
        (msg, width, frame, came, stays, sized, drawn, on, tt)
      ∙ panics_behind sys (handle self msg).0 front c back more (rw came at is)

  -- The thread that draws panics just if the terminal could be set up and, behind messages that were all
  -- drawn and did not end the loop, the channel ended, or a message came that left a client on the list
  -- where overflow is checked and the drawing was narrower than 5 columns.
  pub render_thread-panics_iff :
      (sys : TerminalCalls) (self : ServerTui) (cs : List Came)
      → (render_thread overflow_checks to_string sys self cs ≡ thread_panics)
        ↔ (((sys.new && sys.autoresize && sys.hide_cursor) ≡ true) × BreaksIn self cs)
  unfolding render_thread
  render_thread-panics_iff sys self cs =
      elim (Bool-cases (sys.new && sys.autoresize && sys.hide_cursor)) [
        | inl sets_up ↦ rw sets_up (
          λ e. (refl, breaks sys self cs e),
          λ (up, (front, c, back, split, goes, is)).
              ap (render_loop overflow_checks to_string sys self) split
              ∙ panics_behind sys self front c back goes is,
        )
        | inr fails ↦ rw fails (λ e. absurd (cc), λ h. absurd (cc))
      ]
