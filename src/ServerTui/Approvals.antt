-- ===== src/ServerTui/Approvals.antt =====
-- Which keys approve a client.
use hubtain.Common.{
  ℕ, ◌≡◌, refl, sym, ◌∙◌, Bool, true, false, List, [], ◌∷◌, some, Option-cases, inl, inr, if-either,
  ◌==◌, ◌&&◌,
}
use hubtain.Approval.{ClientId}
use hubtain.ServerTui.{
  ServerTui, TermMsg, log, client_request, input, key, enter, esc, other_key, char, other_event,
  Effect, reply, info_downloading, store_shutdown, take_selected, handle, on_char, on_enter,
  on_deny,
}

-- The channels that are answered with yes.
abbrev pub approvals : List Effect → List ℕ
approvals [] = []
approvals (reply tx true ∷ es) = tx ∷ approvals es
approvals (reply tx false ∷ es) = approvals es
approvals (info_downloading c ∷ es) = approvals es
approvals (store_shutdown ∷ es) = approvals es

deny-approvals : (self : ServerTui) → approvals (on_deny self).1 ≡ []
unfolding on_deny
deny-approvals self = elim (Option-cases (take_selected self)) [
  | inl e ↦ rw (e, on_deny) refl
  | inr (r, e) ↦ rw (e, on_deny) refl
]

char-approvals :
    (self : ServerTui) (c : ℕ) (control : Bool) → approvals (on_char self c control).1 ≡ []
unfolding on_char
char-approvals self c control = if-either P (c == b'n') _ _ (deny-approvals self) (
    if-either P (c == b'k') _ _ refl (
      if-either P (c == b'j') _ _ refl
        (if-either P (c == b'c' && control) _ _ refl (if-either P (c == b'q') _ _ refl refl))))
  where
    P : ServerTui × List Effect × Bool → Type 0
    P r = approvals r.1 ≡ []

enter_selected :
    (self : ServerTui) (tx : ℕ) (txs : List ℕ)
    → approvals (on_enter self).1 ≡ tx ∷ txs
    → (id : ClientId) × (rest : List (ClientId × ℕ)) × (take_selected self ≡ some ((id, tx), rest))
      × (txs ≡ [])
unfolding on_enter
enter_selected self tx txs e = elim (Option-cases (take_selected self)) [
  | inl n ↦ absurd (let p : [] ≡ tx ∷ txs = rw (n, on_enter) at e in cc)
  | inr ((client, rest), n) ↦
      let p : client.1 ∷ [] ≡ tx ∷ txs = rw (n, on_enter) at e in
      let same : client.1 ≡ tx = cc in
      let none_left : txs ≡ [] = cc in
      (client.0, rest, n ∙ (λ i. some ((client.0, same i), rest)), none_left)
]

-- Only Enter approves, and only the client under the selection: if a message makes the interface
-- answer with yes, it is an Enter, and the only such answer goes to the client that is selected.
pub handle-approvals :
    (self : ServerTui) (msg : TermMsg) (tx : ℕ) (txs : List ℕ)
    → approvals (handle self msg).1 ≡ tx ∷ txs
    → (control : Bool) × (id : ClientId) × (rest : List (ClientId × ℕ)) × (msg
        ≡ input (key enter control))
      × (take_selected self ≡ some ((id, tx), rest))
      × (txs ≡ [])
unfolding handle
handle-approvals self (log s) tx txs e = absurd (let p : [] ≡ tx ∷ txs = e in cc)
handle-approvals self (client_request c t) tx txs e = absurd (let p : [] ≡ tx ∷ txs = e in cc)
handle-approvals self (input (key enter control)) tx txs e =
    let (id, rest, taken, alone) = enter_selected self tx txs e in
    (control, id, rest, refl, taken, alone)
handle-approvals self (input (key esc control)) tx txs e = absurd (let p : [] ≡ tx ∷ txs = e in cc)
handle-approvals self (input (key other_key control)) tx txs e =
    absurd (let p : [] ≡ tx ∷ txs = e in cc)
handle-approvals self (input (key (char c) control)) tx txs e =
    absurd (let p : [] ≡ tx ∷ txs = sym (char-approvals self c control) ∙ e in cc)
handle-approvals self (input other_event) tx txs e = absurd (let p : [] ≡ tx ∷ txs = e in cc)
