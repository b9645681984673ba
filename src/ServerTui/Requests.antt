-- ===== src/ServerTui/Requests.antt =====
-- The clients on the interface's list are ones that asked.
use hubtain.Common.{
  ℕ, zero, suc, ◌≡◌, refl, subst, Bool, List, [], ◌∷◌, ◌++◌, Option, none, some, Option-cases, ◌⊎◌,
  inl, inr, ◌==◌, ◌&&◌, if-either, Occurs, Occurs-append_left, Occurs-append_right, Occurs-append,
}
use mathlib.Core.Option
use hubtain.Approval.{ClientId}
use hubtain.ServerTui.{
  ServerTui, TermMsg, log, client_request, input, key, enter, esc, other_key, char, other_event,
  Effect, remove, take_selected, handle, on_char, on_enter, on_deny, run,
}

-- Who asks, and on which channel.
abbrev pub asked_by : List TermMsg → List (ClientId × ℕ)
asked_by [] = []
asked_by (client_request c tx ∷ msgs) = (c, tx) ∷ asked_by msgs
asked_by (log s ∷ msgs) = asked_by msgs
asked_by (input i ∷ msgs) = asked_by msgs

-- What `remove` gives and what it leaves were on the list.
abbrev Kept : {A : Type 0} → List A → Option (A × List A) → Type 0
Kept xs none = Unit {0}
Kept {A} xs (some (x, rest)) = Occurs x xs × ((c : A) → Occurs c rest → Occurs c xs)

Kept-map :
    {A : Type 0} (y : A) (ys : List A) (r : Option (A × List A))
    → Kept ys r
    → Kept (y ∷ ys) (Option.map (λ r. (r.0, y ∷ r.1)) r)
Kept-map y ys none h = tt
Kept-map y ys (some (x, rest)) h = (inr h.0, below)
  where
    below : (c : _) → Occurs c (y ∷ rest) → Occurs c (y ∷ ys)
    below c (inl e) = inl e
    below c (inr o) = inr (h.1 c o)

remove-Kept : {A : Type 0} (i : ℕ) (xs : List A) → Kept xs (remove i xs)
unfolding remove
remove-Kept i [] = tt
remove-Kept zero (x ∷ xs) = (inl refl, λ c o. inr o)
remove-Kept (suc i) (x ∷ xs) = Kept-map x xs (remove i xs) (remove-Kept i xs)

selected-Kept : (self : ServerTui) → Kept self.clients (take_selected self)
unfolding Option.bind
selected-Kept self = from self.selected
  where
    from : (o : Option ℕ) → Kept self.clients (Option.bind o (λ i. remove i self.clients))
    from none = tt
    from (some i) = remove-Kept i self.clients

-- The selected client is on the list.
pub take_selected-Occurs :
    (self : ServerTui) (client : ClientId × ℕ) (rest : List (ClientId × ℕ))
    → take_selected self ≡ some (client, rest)
    → Occurs client self.clients
take_selected-Occurs self client rest e = (subst (Kept self.clients) e (selected-Kept self)).0

-- No operation puts a client on the list that was not there.
abbrev Within : ServerTui → ServerTui → Type 0
Within self next = (c : ClientId × ℕ) → Occurs c next.clients → Occurs c self.clients

enter-Within : (self : ServerTui) → Within self (on_enter self).0
unfolding on_enter
enter-Within self = elim (Option-cases (take_selected self)) [
  | inl e ↦ rw (e, on_enter) (λ c o. o)
  | inr (r, e) ↦ rw (e, on_enter) (subst (Kept self.clients) e (selected-Kept self)).1
]

deny-Within : (self : ServerTui) → Within self (on_deny self).0
unfolding on_deny
deny-Within self = elim (Option-cases (take_selected self)) [
  | inl e ↦ rw (e, on_deny) (λ c o. o)
  | inr (r, e) ↦ rw (e, on_deny) (subst (Kept self.clients) e (selected-Kept self)).1
]

char-Within : (self : ServerTui) (c : ℕ) (control : Bool) → Within self (on_char self c control).0
unfolding on_char
char-Within self c control = if-either P (c == b'n') _ _ (deny-Within self) (
    if-either P (c == b'k') _ _ same (
      if-either P (c == b'j') _ _ same
        (if-either P (c == b'c' && control) _ _ same (if-either P (c == b'q') _ _ same same))))
  where
    P : ServerTui × List Effect × Bool → Type 0
    P r = Within self r.0

    same : Within self self
    same = λ c o. o

pub handle-Occurs :
    (self : ServerTui) (msg : TermMsg) (c : ClientId × ℕ)
    → Occurs c (handle self msg).0.clients
    → Occurs c self.clients ⊎ Occurs c (asked_by (msg ∷ []))
unfolding handle
handle-Occurs self (log s) c o = inl o
handle-Occurs self (client_request id tx) c o = Occurs-append c self.clients ((id, tx) ∷ []) o
handle-Occurs self (input (key enter control)) c o = inl (enter-Within self c o)
handle-Occurs self (input (key esc control)) c o = inl o
handle-Occurs self (input (key other_key control)) c o = inl o
handle-Occurs self (input (key (char k) control)) c o = inl (char-Within self k control c o)
handle-Occurs self (input other_event) c o = inl o

pub asked_by-cons :
    (msg : TermMsg) (msgs : List TermMsg)
    → asked_by (msg ∷ msgs) ≡ asked_by (msg ∷ []) ++ asked_by msgs
asked_by-cons (log s) msgs = refl
asked_by-cons (client_request c tx) msgs = refl
asked_by-cons (input i) msgs = refl

-- After any messages every client on the list was there before, or has asked since.
pub run-Occurs :
    (msgs : List TermMsg) (self : ServerTui) (c : ClientId × ℕ)
    → Occurs c (run self msgs).0.clients
    → Occurs c self.clients ⊎ Occurs c (asked_by msgs)
unfolding run
run-Occurs [] self c o = inl o
run-Occurs (msg ∷ msgs) self c o = elim (run-Occurs msgs (handle self msg).0 c o) [
  | inr since ↦
      inr (rw (asked_by-cons msg msgs) (Occurs-append_right c (asked_by (msg ∷ [])) _ since))
  | inl before ↦ elim (handle-Occurs self msg c before) [
    | inl old ↦ inl old
    | inr now ↦ inr (rw (asked_by-cons msg msgs) (Occurs-append_left c (asked_by (msg ∷ [])) _ now))
  ]
]

pub asked_by-append : (xs ys : List TermMsg) → asked_by (xs ++ ys) ≡ asked_by xs ++ asked_by ys
asked_by-append [] ys = refl
asked_by-append (client_request c tx ∷ xs) ys = rw (asked_by-append xs ys)
asked_by-append (log s ∷ xs) ys = asked_by-append xs ys
asked_by-append (input i ∷ xs) ys = asked_by-append xs ys
