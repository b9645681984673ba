-- ===== src/ServerTui/Keys.antt =====
-- What the keys do to the selection, and the end of the loop.
use mathlib.Core.Option
use hubtain.Common.{
  ℕ, zero, suc, ◌+◌, ◌-◌, ◌≤◌, ◌<◌, ◌≡◌, refl, ap, Bool, true, false, Bool-cases, Option-cases,
  Option, none, some, inl, inr, List, [], ◌∷◌, ◌++◌, map, arith, append-nil, length, take,
  if-either, lt→leb, take_all, ◌⊎◌, min, ltb, if◌then◌else◌, ◌%◌, ◌^◌,
}
use hubtain.Approval.{ClientId}
use hubtain.ServerTui.{
  ServerTui, TermMsg, input, key, enter, char, reply, info_downloading, remove, take_selected,
  handle, on_enter, on_deny, run, render, client_line,
}

remove_at {ℓ} :
    {A : Type ℓ} (front : List A) (x : A) (back : List A)
    → remove (length front) (front ++ (x ∷ back)) ≡ some (x, front ++ back)
unfolding remove
remove_at [] x back = refl
remove_at (y ∷ front) x back = rw (remove_at front x back)

remove_past {ℓ} : {A : Type ℓ} (i : ℕ) (xs : List A) → length xs ≤ i → remove i xs ≡ none
unfolding remove
remove_past i [] h = refl
remove_past zero (x ∷ xs) h = absurd (omega arith)
remove_past (suc i) (x ∷ xs) h = rw (remove_past i xs (omega arith))

module _ (self : ServerTui) (front back : List (ClientId × ℕ)) (id : ClientId) (tx : ℕ)
    (s : self.selected ≡ some (length front)) (e : self.clients ≡ front ++ ((id, tx) ∷ back)) where
  selected_taken : take_selected self ≡ some ((id, tx), front ++ back)
  unfolding Option.bind
  selected_taken = rw (s, e) (remove_at front (id, tx) back)

  -- Enter with a client under the selection: this client alone is taken off the list and answered
  -- with yes, after its download is logged; the others keep their order, and the selection its
  -- number. With `n` in its place the client is answered with no, and nothing is logged.
  handle_answers :
      (control : Bool)
      → (handle self (input (key enter control)) ≡ (
        record self { clients = front ++ back },
        info_downloading id ∷ reply tx true ∷ [],
        false,
      ))
        × (handle self (input (key (char b'n') control))
            ≡ (record self { clients = front ++ back }, reply tx false ∷ [], false))
  unfolding handle
  handle_answers control = (rw (selected_taken, on_enter), rw (selected_taken, on_deny))

-- Where the selection is missing or stands past the last client, Enter and `n` do nothing.
handle_no_client :
    (self : ServerTui) (control : Bool)
    → (self.selected ≡ none) ⊎ ((i : ℕ) × (self.selected ≡ some i) × (length self.clients ≤ i))
    → (handle self (input (key enter control)) ≡ (self, [], false))
      × (handle self (input (key (char b'n') control)) ≡ (self, [], false))
unfolding handle
handle_no_client self control h = (rw (nothing, on_enter), rw (nothing, on_deny))
  where
    nothing : take_selected self ≡ none
    nothing =
        unfold Option.bind in
        elim h [ inl e ↦ rw e | inr (i, e, past) ↦ rw e (remove_past i self.clients past) ]

-- After Enter on the last client of the list the selection stands past the end: the clients before
-- it stay, and the next Enter answers nobody.
pub enter_twice_at_end :
    (self : ServerTui) (front : List (ClientId × ℕ)) (last : ClientId × ℕ) (control : Bool)
    → self.selected ≡ some (length front)
    → self.clients ≡ front ++ (last ∷ [])
    → let (next, effects, quits) = handle self (input (key enter control)) in
      (next.clients ≡ front) × (handle next (input (key enter control)) ≡ (next, [], false))
enter_twice_at_end self front last control s e =
    rw ((handle_answers self front [] last.0 last.1 s e control).0) (
      append-nil front,
      (handle_no_client (record self { clients = front ++ [] }) control
          (inr (length front, s, short))).0,
    )
  where
    short : length (front ++ []) ≤ length front
    short = omega (arith, ap length (append-nil front))

-- If there are clients, `j` leaves the selection on one of them.
down_selects :
    (self : ServerTui) (control : Bool)
    → 0 < length self.clients
    → (i : ℕ) × ((handle self (input (key (char b'j') control))).0.selected ≡ some i)
      × (i < length self.clients)
unfolding handle
down_selects self control h = elim (Option-cases self.selected) [
  | inl e ↦ (0, rw e, h)
  | inr (x, e) ↦ (min (x + 1) (length self.clients - 1), rw e, omega arith)
]

-- However `render` ends, its state and its effects are those of handling, one after the other, some
-- number of the messages that came, from the first on.
render-run :
    (events : List (Option TermMsg × Bool)) (self : ServerTui)
    → (k : ℕ) × (msgs : List TermMsg) × (map (λ e. e.0) (take k events) ≡ map some msgs)
      × ((render self events).0 ≡ (run self msgs).0)
      × ((render self events).1 ≡ (run self msgs).1)
unfolding render run
render-run [] self = (0, [], refl, refl, refl)
render-run ((none, shutdown) ∷ rest) self = (0, [], refl, refl, refl)
render-run ((some msg, shutdown) ∷ rest) self =
    let (k, msgs, same, state, effects) = render-run rest (handle self msg).0 in
    elim (Bool-cases (handle self msg).2) [
      | inl q ↦ (1, msg ∷ [], refl, rw q, rw (q, append-nil))
      | inr q ↦ elim (Bool-cases shutdown) [
        | inl d ↦ (1, msg ∷ [], refl, rw (q, d), rw (q, d, append-nil))
        | inr d ↦ (
          suc k,
          msg ∷ msgs,
          ap (◌∷◌ (some msg)) same,
          rw (q, d) state,
          rw (q, d) (ap (◌++◌ (handle self msg).1) effects),
        )
      ]
    ]

-- On a terminal narrower than 5 columns the drawing of a client panics with overflow checks; without
-- them a name of fewer than 65531 bytes is drawn whole, since the width has wrapped round.
client_line_narrow :
    (width : ℕ) (client_id : List ℕ)
    → width < 5
    → length client_id < 65531
    → (client_line true width client_id ≡ none)
      × (client_line false width client_id ≡ some client_id)
unfolding client_line
client_line_narrow width client_id h small =
    (rw (lt→leb 5 width h), rw (lt→leb 5 width h) (ap some whole))
  where
    wrapped : (width + 2 ^ 16 - 5) % 2 ^ 16 ≡ width + 65531
    wrapped = omega arith

    whole :
        (if ltb 5 ((width + 2 ^ 16 - 5) % 2 ^ 16)
          then take ((width + 2 ^ 16 - 5) % 2 ^ 16) client_id
          else client_id)
        ≡ client_id
    whole = rw wrapped (
        if-either (λ r. r ≡ client_id) _ _ _ (take_all (width + 65531) client_id (omega arith))
          refl)
