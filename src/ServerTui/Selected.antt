-- ===== src/ServerTui/Selected.antt =====
-- Whoever is answered is the client under the selection.
use hubtain.Common.{
  ℕ, zero, suc, ◌≡◌, ap, ◌∙◌, Bool, true, false, List, [], ◌∷◌, Option, none, some, Option-cases,
  inl, inr, Occurs, if-either, ◌==◌, ◌&&◌, get_elem?,
}
use mathlib.Core.Option
use hubtain.Approval.{ClientId}
use hubtain.ServerTui.{
  ServerTui, TermMsg, log, client_request, input, key, enter, esc, other_key, char, other_event,
  Effect, reply, info_downloading, store_shutdown, remove, take_selected, handle, on_char, on_enter,
  on_deny,
}

-- `reply tx b` answers the client under the selection.
abbrev pub Selects : ServerTui → ℕ → Type 0
Selects self tx =
    (id : ClientId) × (rest : List (ClientId × ℕ)) × (take_selected self ≡ some ((id, tx), rest))

abbrev channel : Effect → Option ℕ
channel (reply tx b) = some tx
channel _ = none

answered_Selects :
    (self : ServerTui) (tx : ℕ) (b : Bool) (client : ClientId × ℕ) (rest : List (ClientId × ℕ))
    (answer : Bool)
    → take_selected self ≡ some (client, rest)
    → reply tx b ≡ reply client.1 answer
    → Selects self tx
answered_Selects self tx b client rest answer n e =
    let p : some tx ≡ some client.1 = ap channel e in
    let same : client.1 ≡ tx = cc in (client.0, rest, n ∙ (λ i. some ((client.0, same i), rest)))

enter_Selects :
    (self : ServerTui) (tx : ℕ) (b : Bool) → Occurs (reply tx b) (on_enter self).1 → Selects self tx
unfolding on_enter
enter_Selects self tx b o = elim (Option-cases (take_selected self)) [
  | inl n ↦ absurd (rw (n, on_enter) at o)
  | inr ((client, rest), n) ↦ among client rest n (rw (n, on_enter) at o)
]
  where
    among :
        (client : ClientId × ℕ) (rest : List (ClientId × ℕ))
        → take_selected self ≡ some (client, rest)
        → Occurs (reply tx b) (info_downloading client.0 ∷ reply client.1 true ∷ [])
        → Selects self tx
    among client rest n (inl e) = absurd (let p : some tx ≡ none = ap channel e in cc)
    among client rest n (inr (inl e)) = answered_Selects self tx b client rest true n e
    among client rest n (inr (inr o)) = absurd o

deny_Selects :
    (self : ServerTui) (tx : ℕ) (b : Bool) → Occurs (reply tx b) (on_deny self).1 → Selects self tx
unfolding on_deny
deny_Selects self tx b o = elim (Option-cases (take_selected self)) [
  | inl n ↦ absurd (rw (n, on_deny) at o)
  | inr ((client, rest), n) ↦ among client rest n (rw (n, on_deny) at o)
]
  where
    among :
        (client : ClientId × ℕ) (rest : List (ClientId × ℕ))
        → take_selected self ≡ some (client, rest)
        → Occurs (reply tx b) (reply client.1 false ∷ [])
        → Selects self tx
    among client rest n (inl e) = answered_Selects self tx b client rest false n e
    among client rest n (inr o) = absurd o

char_Selects :
    (self : ServerTui) (c : ℕ) (control : Bool) (tx : ℕ) (b : Bool)
    → Occurs (reply tx b) (on_char self c control).1
    → Selects self tx
unfolding on_char
char_Selects self c control tx b = if-either P (c == b'n') _ _ (deny_Selects self tx b) (
    if-either P (c == b'k') _ _ quiet (
      if-either P (c == b'j') _ _ quiet
        (if-either P (c == b'c' && control) _ _ stored (if-either P (c == b'q') _ _ stored quiet))))
  where
    P : ServerTui × List Effect × Bool → Type 0
    P r = Occurs (reply tx b) r.1 → Selects self tx

    quiet : Occurs (reply tx b) [] → Selects self tx
    quiet o = absurd o

    stored : Occurs (reply tx b) (store_shutdown ∷ []) → Selects self tx
    stored (inl e) = absurd (let p : some tx ≡ none = ap channel e in cc)
    stored (inr o) = absurd o

pub handle_Selects :
    (self : ServerTui) (msg : TermMsg) (tx : ℕ) (b : Bool)
    → Occurs (reply tx b) (handle self msg).1
    → Selects self tx
unfolding handle
handle_Selects self (log s) tx b o = absurd o
handle_Selects self (client_request c t) tx b o = absurd o
handle_Selects self (input (key enter control)) tx b o = enter_Selects self tx b o
handle_Selects self (input (key esc control)) tx b (inl e) =
    absurd (let p : some tx ≡ none = ap channel e in cc)
handle_Selects self (input (key esc control)) tx b (inr o) = absurd o
handle_Selects self (input (key other_key control)) tx b o = absurd o
handle_Selects self (input (key (char c) control)) tx b o = char_Selects self c control tx b o
handle_Selects self (input other_event) tx b o = absurd o

remove-get_elem? {ℓ} :
    {A : Type ℓ} (i : ℕ) (xs : List A) (x : A) (rest : List A)
    → remove i xs ≡ some (x, rest)
    → get_elem? xs i ≡ some x
unfolding remove
remove-get_elem? i [] x rest e = absurd (let p : none ≡ some (x, rest) = e in cc)
remove-get_elem? {A} zero (y ∷ ys) x rest e =
    let p : ◌≡◌ {A = Option (A × List A)} (some (y, ys)) (some (x, rest)) = e in cc
remove-get_elem? {A} (suc i) (y ∷ ys) x rest e = elim (Option-cases (remove i ys)) [
  | inl n ↦ absurd (let p : none ≡ some (x, rest) = rw n at e in cc)
  | inr ((z, zs), n) ↦
      let p : ◌≡◌ {A = Option (A × List A)} (some (z, y ∷ zs)) (some (x, rest)) = rw n at e in
      let same : z ≡ x = cc in remove-get_elem? i ys z zs n ∙ ap some same
]

-- The selection is a number, and the client taken is the one at that number.
pub selected_at :
    (self : ServerTui) (client : ClientId × ℕ) (rest : List (ClientId × ℕ))
    → take_selected self ≡ some (client, rest)
    → (i : ℕ) × (self.selected ≡ some i) × (get_elem? self.clients i ≡ some client)
unfolding Option.bind
selected_at self client rest e = elim (Option-cases self.selected) [
  | inl n ↦ absurd (let p : none ≡ some (client, rest) = rw n at e in cc)
  | inr (i, n) ↦ (i, n, remove-get_elem? i self.clients client rest (rw n at e))
]
