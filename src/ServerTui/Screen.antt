-- ===== src/ServerTui/Screen.antt =====
-- The screen and the answers: whom the user answers is whom the interface shows.
use hubtain.Common.{
  ℕ, zero, suc, ◌≡◌, refl, sym, ap, ◌∙◌, Bool, true, false, List, [], ◌∷◌, Option, none,
  Occurs-append_left, Occurs-append_right, if◌then◌else◌, subst, some, Option-cases, inl, inr,
  Occurs, get_elem?,
}
use hubtain.Approval.{ClientId}
use hubtain.ServerTui.{ServerTui, TermMsg, reply, new, handle, client_line}
use hubtain.ServerTui.Requests.{asked_by, handle-Occurs, take_selected-Occurs, asked_by-cons}
use hubtain.ServerTui.Frame.{Frame, Seen, title_of, client_items, draw, seen}
use hubtain.ServerTui.Selected.{Selects, handle_Selects, selected_at}

-- The messages that came.
abbrev pub messages_of : List (Option TermMsg × ℕ × Bool) → List TermMsg
messages_of [] = []
messages_of ((none, width, shutdown) ∷ rest) = messages_of rest
messages_of ((some msg, width, shutdown) ∷ rest) = msg ∷ messages_of rest

module _ (overflow_checks : Bool) (to_string : ClientId → List ℕ) where
  -- The screen highlights the line of a client that has asked on the channel.
  pub record Highlights (requests : List (ClientId × ℕ)) (screen : Option Frame) (tx : ℕ)
      : Type 0 where
    pub id : ClientId
    pub frame : Frame
    pub line : ℕ
    pub has_asked : Occurs (id, tx) requests
    pub on_screen : screen ≡ some frame
    pub highlights : frame.highlighted ≡ some line
    pub reads : get_elem? frame.items line ≡ client_line overflow_checks frame.width (to_string id)

  line_at :
      (s : ClientId × ℕ) (clients : List (ClientId × ℕ)) (line : List ℕ) (below : List (List ℕ))
      (client : ClientId × ℕ) (width : ℕ)
      → client_line overflow_checks width (to_string s.0) ≡ some line
      → ((j : ℕ)
          → get_elem? clients j ≡ some client
          → get_elem? below j ≡ client_line overflow_checks width (to_string client.0))
      → (i : ℕ) → get_elem? (s ∷ clients) i ≡ some client
      → get_elem? (line ∷ below) i ≡ client_line overflow_checks width (to_string client.0)
  line_at s clients line below client width n rest zero at =
      let p : some s ≡ some client = at in
      let same : s ≡ client = cc in
      sym n ∙ ap (λ (c : ClientId × ℕ). client_line overflow_checks width (to_string c.0)) same
  line_at s clients line below client width n rest (suc i) at = rest i at

  items_at :
      (width : ℕ) (clients : List (ClientId × ℕ)) (items : List (List ℕ)) (i : ℕ)
      (client : ClientId × ℕ)
      → client_items overflow_checks to_string width clients ≡ some items
      → get_elem? clients i ≡ some client
      → get_elem? items i ≡ client_line overflow_checks width (to_string client.0)
  unfolding client_items
  items_at width [] items i client e at = absurd (let p : none ≡ some client = at in cc)
  items_at width (s ∷ clients) items i client e at =
      elim (Option-cases (client_line overflow_checks width (to_string s.0))) [
        | inl n ↦ absurd (let p : none ≡ some items = rw n at e in cc)
        | inr (line, n) ↦
            elim (Option-cases (client_items overflow_checks to_string width clients)) [
              | inl m ↦ absurd (let p : none ≡ some items = rw (n, m) at e in cc)
              | inr (below, m) ↦
                  let p : some (line ∷ below) ≡ some items = rw (n, m) at e in
                  let same : line ∷ below ≡ items = cc in
                  subst
                    (λ ys. get_elem? ys i ≡ client_line overflow_checks width (to_string client.0))
                    same
                    (line_at s clients line below client width n
                      (λ j back. items_at width clients below j client m back) i at)
            ]
      ]

  -- The screen is a drawing of the state, or nothing has been drawn and nobody is selected.
  abbrev Shows : ServerTui → Option Frame → Type 0
  Shows self none = self.selected ≡ none
  Shows self (some frame) =
      (client_items overflow_checks to_string frame.width self.clients ≡ some frame.items)
      × (frame.highlighted ≡ self.selected)

  draw-Shows :
      (width : ℕ) (self : ServerTui) (frame : Frame)
      → draw overflow_checks to_string width self ≡ some frame
      → Shows self (some frame)
  unfolding draw
  draw-Shows width self frame e =
      elim (Option-cases (client_items overflow_checks to_string width self.clients)) [
        | inl n ↦ absurd (let p : none ≡ some frame = rw n at e in cc)
        | inr (items, n) ↦
            let p : some (drawing items) ≡ some frame = rw n at e in
            let same : drawing items ≡ frame = cc in subst (λ f. Shows self (some f)) same (n, refl)
      ]
    where
      drawing : List (List ℕ) → Frame
      drawing items = record {
        title = title_of self;
        logs = self.logs;
        width = width;
        items = items;
        highlighted = self.selected;
      }

  -- What is answered is highlighted.
  Shows-Highlights :
      (self : ServerTui) (screen : Option Frame) (requests : List (ClientId × ℕ)) (tx : ℕ)
      → ((c : ClientId × ℕ) → Occurs c self.clients → Occurs c requests)
      → Shows self screen
      → Selects self tx
      → Highlights requests screen tx
  Shows-Highlights self none requests tx known shows (id, rest, e) =
      let (i, on, at) = selected_at self (id, tx) rest e in
      absurd (let p : none ≡ some i = sym shows ∙ on in cc)
  Shows-Highlights self (some frame) requests tx known (items, same) (id, rest, e) =
      let (i, on, at) = selected_at self (id, tx) rest e in
      record {
        id = id;
        frame = frame;
        line = i;
        has_asked = known (id, tx) (take_selected-Occurs self (id, tx) rest e);
        on_screen = refl;
        highlights = same ∙ on;
        reads = items_at frame.width self.clients frame.items i (id, tx) items at;
      }

  goes_on :
      (quits shutdown : Bool) (drawn : Option Frame) (more : List Seen) (t : Seen)
      → Occurs t (
          if quits
          then []
          else elim drawn [ none ↦ [] | some frame ↦ if shutdown then [] else more ])
      → (frame : Frame) × (drawn ≡ some frame) × Occurs t more
  goes_on true shutdown drawn more t o = absurd o
  goes_on false shutdown none more t o = absurd o
  goes_on false true (some frame) more t o = absurd o
  goes_on false false (some frame) more t o = (frame, refl, o)

  seen_from :
      (events : List (Option TermMsg × ℕ × Bool)) (self : ServerTui) (screen : Option Frame)
      (requests : List (ClientId × ℕ)) (t : Seen) (tx : ℕ) (b : Bool)
      → ((c : ClientId × ℕ) → Occurs c self.clients → Occurs c requests)
      → ((c : ClientId × ℕ) → Occurs c (asked_by (messages_of events)) → Occurs c requests)
      → Shows self screen
      → Occurs t (seen overflow_checks to_string self screen events)
      → Occurs (reply tx b) t.effects
      → Highlights requests t.screen tx
  unfolding seen
  seen_from [] self screen requests t tx b known new_ones shows o r = absurd o
  seen_from ((none, width, shutdown) ∷ rest) self screen requests t tx b known new_ones shows o r =
      absurd o
  seen_from ((some msg, width, shutdown) ∷ rest) self screen requests t tx b known new_ones shows
        (inl e) r =
      subst (λ t. Highlights requests t.screen tx) (sym e)
        (Shows-Highlights self screen requests tx known shows
          (handle_Selects self msg tx b (subst (λ t. Occurs (reply tx b) t.effects) e r)))
  seen_from ((some msg, width, shutdown) ∷ rest) self screen requests t tx b known new_ones shows
        (inr o) r =
      let next = (handle self msg).0 in
      let (frame, drawn, later) =
        goes_on (handle self msg).2 shutdown (draw overflow_checks to_string width next) _ t o in
      seen_from rest next (some frame) requests t tx b
        (λ c on. elim (handle-Occurs self msg c on) [
          | inl old ↦ known c old
          | inr now ↦ new_ones c (
              rw (asked_by-cons msg (messages_of rest))
                (Occurs-append_left c (asked_by (msg ∷ [])) _ now))
        ])
        (λ c on. new_ones c (
          rw (asked_by-cons msg (messages_of rest))
            (Occurs-append_right c (asked_by (msg ∷ [])) _ on)))
        (draw-Shows width next frame drawn) (rw drawn at later) r

  -- Whenever a message makes the interface answer a client, with yes or with no, something has been
  -- drawn; the line that the last drawing highlights is the line of that client, its name cut to the
  -- width of that drawing; and the client has asked on the channel that is answered.
  pub seen-Highlights :
      (name file_name : List ℕ) (events : List (Option TermMsg × ℕ × Bool)) (t : Seen) (tx : ℕ)
      (b : Bool)
      → Occurs t (seen overflow_checks to_string (new name file_name) none events)
      → Occurs (reply tx b) t.effects
      → Highlights (asked_by (messages_of events)) t.screen tx
  unfolding new
  seen-Highlights name file_name events t tx b o r =
      seen_from events (new name file_name) none (asked_by (messages_of events)) t tx b
        (λ c on. absurd on) (λ c on. on) refl o r
