-- ===== src/ServerTui/Consent.antt =====
-- The key exchange with the approver that asks through the interface: the user's consent.
use hubtain.Common.{
  ℕ, ◌≡◌, refl, sym, true, List, Option, none, some, Option-cases, inl, inr, All, All-Occurs,
  Occurs, Occurs-append_left, subst,
}
use mathlib.Core.Option
use hubtain.Stream.{Sock, value, Arrival, await, poll}
use hubtain.Approval.{ClientId, ClientApprovalStrategy}
use hubtain.EncryptedStream.{Noise, Keypair}
use hubtain.EncryptedStream.Server.{key_exchange}
use hubtain.EncryptedStream.Safety.{key_exchange-IsApproved}
use hubtain.ServerTui.{TermMsg, new, run}
use hubtain.ServerTui.Requests.{asked_by, asked_by-append, run-Occurs, take_selected-Occurs}
use hubtain.ServerTui.Approver.{tui_submit, Pressed, run-Pressed}

-- The channel of a request is fresh: nobody else asks on it.
abbrev pub IsFresh : ℕ → (ClientId → Option (List TermMsg)) → Type 0
IsFresh tx handled =
    (id : ClientId) (msgs : List TermMsg)
    → handled id ≡ some msgs
    → All (λ r. r.1 ≡ tx → r.0 ≡ id) (asked_by msgs)

module _ (name file_name : List ℕ) (tx : ℕ) (handled : ClientId → Option (List TermMsg))
    (fresh : IsFresh tx handled) where
  -- The user has pressed Enter with this client selected.
  abbrev pub Consents : ClientId → Type 0
  Consents id =
      (msgs : List TermMsg) × (handled id ≡ some msgs)
      × (p : Pressed (new name file_name) msgs tx) × (p.id ≡ id)

  same_id :
      (id : ClientId) (msgs : List TermMsg) (p : Pressed (new name file_name) msgs tx)
      → handled id ≡ some msgs
      → p.id ≡ id
  unfolding new
  same_id id msgs p e =
      elim (run-Occurs p.front (new name file_name) (p.id, tx)
        (take_selected-Occurs (run (new name file_name) p.front).0 (p.id, tx) p.rest p.selects)) [
          | inl o ↦ absurd o
          | inr o ↦
              let asks : Occurs (p.id, tx) (asked_by msgs) =
                subst (λ ms. Occurs (p.id, tx) (asked_by ms)) (sym p.split)
                  (rw (asked_by-append p.front _)
                    (Occurs-append_left (p.id, tx) (asked_by p.front) _ o)) in
              All-Occurs (λ r. r.1 ≡ tx → r.0 ≡ id) (p.id, tx) (asked_by msgs) (fresh id msgs e)
                asks refl
        ]

  pub submit-Consents :
      (id : ClientId) → tui_submit name file_name tx handled id ≡ some true → Consents id
  unfolding tui_submit Option.bind
  submit-Consents id h = elim (Option-cases (handled id)) [
    | inl e ↦ absurd (let q : none ≡ some true = rw e at h in cc)
    | inr (msgs, e) ↦
        let p = run-Pressed msgs (new name file_name) tx (rw e at h) in
        (msgs, e, p, same_id id msgs p e)
  ]

  -- With the approver of the interface, whose request has a channel that nobody else asks on, on every
  -- stream and against every peer: if the key exchange ends with a stream for a key, the user has
  -- pressed Enter while the client with exactly this key was selected.
  key_exchange-Consents :
      (n : Noise) (generated : Option Keypair) (strategy : ClientApprovalStrategy) (s : Sock)
      (ds : List Arrival) (t : n.Transport) (key : List ℕ)
      → (await
          (poll (key_exchange n generated strategy (tui_submit name file_name tx handled)) s)
          ds).0
        ≡ value (t, key)
      → Consents (record { pubkey = key })
  key_exchange-Consents n generated strategy s ds t key e =
      submit-Consents (record { pubkey = key })
        (key_exchange-IsApproved n generated strategy (tui_submit name file_name tx handled) s ds t
          key e).1
