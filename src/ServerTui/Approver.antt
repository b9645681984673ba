-- ===== src/ServerTui/Approver.antt =====
-- tui/mod.rs (`TuiApprover::submit`): the approver that asks through the interface.
use hubtain.Common.{
  ℕ, ◌≡◌, refl, sym, ap, ◌∙◌, Bool, true, false, Bool-cases, List, [], ◌∷◌, ◌++◌, Option, none,
  some, ◌⊎◌, inl, inr, ◌==◌, ==_iff, if◌then◌else◌, Occurs, arith,
}
use mathlib.Core.Option
use hubtain.Approval.{ClientId, ClientApprover}
use hubtain.ServerTui.{
  ServerTui, TermMsg, input, key, enter, Effect, reply, info_downloading, store_shutdown, new,
  take_selected, handle, run,
}
use hubtain.ServerTui.Approvals.{approvals, handle-approvals}

-- What the receiving end of a channel gets first. It ends with nothing once its senders are gone.
unfoldable pub first_reply : ℕ → List Effect → Option Bool
first_reply tx [] = none
first_reply tx (reply c b ∷ es) = let rest = first_reply tx es in if c == tx then some b else rest
first_reply tx (info_downloading c ∷ es) = first_reply tx es
first_reply tx (store_shutdown ∷ es) = first_reply tx es

-- `submit`, on a fresh channel `tx`: the request goes to the interface (`none` where its channel is
-- closed), and the answer is the first that comes on `tx` until the interface is gone. The messages
-- that the interface handles meanwhile, and the name and the file that it shows, are arguments.
unfoldable pub tui_submit :
    List ℕ → List ℕ → ℕ → (ClientId → Option (List TermMsg)) → ClientApprover
unfolding first_reply
tui_submit name file_name tx handled id =
    Option.bind (handled id) (λ msgs. first_reply tx (run (new name file_name) msgs).1)

first_reply-append :
    (tx : ℕ) (es fs : List Effect)
    → first_reply tx (es ++ fs) ≡ some true
    → (first_reply tx es ≡ some true) ⊎ (first_reply tx fs ≡ some true)
unfolding first_reply
first_reply-append tx [] fs h = inr h
first_reply-append tx (reply c b ∷ es) fs h = elim (Bool-cases (c == tx)) [
  | inl e ↦ inl (rw e (rw e at h))
  | inr e ↦ rw e (first_reply-append tx es fs (rw e at h))
]
first_reply-append tx (info_downloading c ∷ es) fs h = first_reply-append tx es fs h
first_reply-append tx (store_shutdown ∷ es) fs h = first_reply-append tx es fs h

first_reply-approvals :
    (tx : ℕ) (es : List Effect) → first_reply tx es ≡ some true → Occurs tx (approvals es)
unfolding first_reply
first_reply-approvals tx [] h = absurd (ground arith)
first_reply-approvals tx (reply c true ∷ es) h = elim (Bool-cases (c == tx)) [
  | inl e ↦ inl (sym ((==_iff c tx).0 e))
  | inr e ↦ inr (first_reply-approvals tx es (rw e at h))
]
first_reply-approvals tx (reply c false ∷ es) h = elim (Bool-cases (c == tx)) [
  | inl e ↦
      absurd
        (let p : some false ≡ some true = rw e at h in let q : ◌≡◌ {A = Bool} false true = cc in cc)
  | inr e ↦ first_reply-approvals tx es (rw e at h)
]
first_reply-approvals tx (info_downloading c ∷ es) h = first_reply-approvals tx es h
first_reply-approvals tx (store_shutdown ∷ es) h = first_reply-approvals tx es h

-- Enter was pressed while a client with the channel `tx` was selected.
pub record Pressed (self : ServerTui) (msgs : List TermMsg) (tx : ℕ) : Type 0 where
  pub front : List TermMsg
  pub control : Bool
  pub back : List TermMsg
  pub id : ClientId
  pub rest : List (ClientId × ℕ)
  pub split : msgs ≡ front ++ (input (key enter control) ∷ back)
  pub selects : take_selected (run self front).0 ≡ some ((id, tx), rest)

handle-Pressed :
    (self : ServerTui) (msg : TermMsg) (msgs : List TermMsg) (tx : ℕ) (txs : List ℕ)
    → approvals (handle self msg).1 ≡ txs
    → Occurs tx txs
    → Pressed self (msg ∷ msgs) tx
unfolding run
handle-Pressed self msg msgs tx [] e o = absurd o
handle-Pressed self msg msgs tx (y ∷ ys) e o =
    let (control, id, rest, is_enter, taken, alone) = handle-approvals self msg y ys e in
    let same : tx ≡ y = only y ys o alone in
    record {
      front = [];
      control = control;
      back = msgs;
      id = id;
      rest = rest;
      split = ap (◌∷ msgs) is_enter;
      selects = taken ∙ (λ i. some ((id, sym same i), rest));
    }
  where
    only : (y : ℕ) (ys : List ℕ) → Occurs tx (y ∷ ys) → ys ≡ [] → tx ≡ y
    only y ys (inl p) z = p
    only y [] (inr h) z = absurd h
    only y (x ∷ ys) (inr h) z = absurd (ground arith)

pub run-Pressed :
    (msgs : List TermMsg) (self : ServerTui) (tx : ℕ)
    → first_reply tx (run self msgs).1 ≡ some true
    → Pressed self msgs tx
unfolding run first_reply
run-Pressed [] self tx h = absurd (ground arith)
run-Pressed (msg ∷ msgs) self tx h = elim (first_reply-append tx (handle self msg).1 _ h) [
  | inl now ↦
      handle-Pressed self msg msgs tx _ refl (first_reply-approvals tx (handle self msg).1 now)
  | inr later ↦
      let p = run-Pressed msgs (handle self msg).0 tx later in
      record {
        front = msg ∷ p.front;
        control = p.control;
        back = p.back;
        id = p.id;
        rest = p.rest;
        split = ap (◌∷◌ msg) p.split;
        selects = p.selects;
      }
]
