-- ===== src/Approval/Questions.antt =====
-- One question at a time, and each line goes to the question above it.
use hubtain.Common.{
  ℕ, ◌≡◌, ◌≢◌, refl, sym, ap, ◌∙◌, subst, ◌==◌, ==_iff, Bool, Bool-cases, Option-cases, List, [],
  ◌∷◌, ◌++◌, Option, none, some, ◌⊎◌, inl, inr,
}
use hubtain.Approval.{ClientId, console_submit}
use hubtain.Approval.Console.{
  Submit, waiting, asking, returned, ConsoleLine, question, typed, ConsoleApprover, set, Step, asks,
  reads_line, Reach, start, next, Turns, here, turn,
}

set_same : (calls : ℕ → Submit) (i : ℕ) (call : Submit) → set calls i call i ≡ call
set_same calls i call = rw ((==_iff i i).1 refl) refl

set_other :
    (calls : ℕ → Submit) (i : ℕ) (call : Submit) (j : ℕ) → j ≢ i → set calls i call j ≡ calls j
set_other calls i call j other = elim (Bool-cases (j == i)) [
  | inl same ↦ absurd (other ((==_iff j i).0 same))
  | inr differs ↦ rw differs refl
]

reads_not : (s : ConsoleApprover) (i : ℕ) → s.calls i ≡ waiting → ¬ (s.calls i ≡ asking)
reads_not s i e on = absurd (let p : waiting ≡ asking = sym e ∙ on in cc)

-- A call that reads so after a set is the one that was set, or read so before.
set-cases :
    (calls : ℕ → Submit) (i : ℕ) (call : Submit) (j : ℕ) (now : Submit)
    → set calls i call j ≡ now
    → ((j ≡ i) × (call ≡ now)) ⊎ (calls j ≡ now)
set-cases calls i call j now e = elim (Bool-cases (j == i)) [
  | inl same ↦ inl ((==_iff j i).0 same, rw same at e)
  | inr other ↦ inr (rw other at e)
]

module _ (client : ℕ → ClientId) where
  -- The line that was typed right behind the question for the client decided the call.
  pub record Decided (lines : List ConsoleLine) (i : ℕ) (result : Option Bool) : Type 0 where
    pub front : List ConsoleLine
    pub input : Option (List ℕ)
    pub back : List ConsoleLine
    pub split : lines ≡ front ++ (typed input ∷ question (client i) ∷ back)
    pub decides : console_submit input ≡ result

  -- The question of the call is the last line, and the call holds the lock.
  abbrev Open : ConsoleApprover → ℕ → Type 0
  Open s i =
      (s.lock ≡ some i) × ((back : List ConsoleLine) × (s.lines ≡ question (client i) ∷ back))

  record Inv (s : ConsoleApprover) : Type 0 where
    opens : (i : ℕ) → s.calls i ≡ asking → Open s i
    held : (i : ℕ) → s.lock ≡ some i → s.calls i ≡ asking
    decided :
        (i : ℕ) (result : Option Bool) → s.calls i ≡ returned result → Decided s.lines i result

  later :
      (line : ConsoleLine) (lines : List ConsoleLine) (i : ℕ) (result : Option Bool)
      → Decided lines i result
      → Decided (line ∷ lines) i result
  later line lines i result d = record {
    front = line ∷ d.front;
    input = d.input;
    back = d.back;
    split = ap (◌∷◌ line) d.split;
    decides = d.decides;
  }

  abbrev asked : ConsoleApprover → ℕ → ConsoleApprover
  asked s i = record {
    lock = some i;
    lines = question (client i) ∷ s.lines;
    calls = set s.calls i asking;
  }

  abbrev answered : ConsoleApprover → ℕ → Option (List ℕ) → ConsoleApprover
  answered s i input = record {
    lock = none;
    lines = typed input ∷ s.lines;
    calls = set s.calls i (returned (console_submit input));
  }

  asks-Inv : (s : ConsoleApprover) (i : ℕ) → Inv s → s.lock ≡ none → Inv (asked s i)
  asks-Inv s i inv free = record {
    opens = λ j e. elim (set-cases s.calls i asking j asking e) [
      | inl (same, on) ↦
          (ap some (sym same), (s.lines, ap (λ k. question (client k) ∷ s.lines) (sym same)))
      | inr before ↦ absurd (let p : none ≡ some j = sym free ∙ (inv.opens j before).0 in cc)
    ];
    held = λ j e.
        let same : i ≡ j = cc in
        subst (λ k. set s.calls i asking k ≡ asking) same (set_same s.calls i asking);
    decided = λ j result e. elim (set-cases s.calls i asking j (returned result) e) [
      | inl (same, on) ↦ absurd (cc)
      | inr before ↦ later (question (client i)) s.lines j result (inv.decided j result before)
    ];
  }

  reads-Inv :
      (s : ConsoleApprover) (i : ℕ) (input : Option (List ℕ))
      → Inv s
      → s.calls i ≡ asking
      → Inv (answered s i input)
  reads-Inv s i input inv reads = record {
    opens = λ j e. elim (set-cases s.calls i (returned (console_submit input)) j asking e) [
      | inl (same, on) ↦ absurd (cc)
      | inr before ↦
          let p : some i ≡ some j = sym (inv.opens i reads).0 ∙ (inv.opens j before).0 in
          let same : i ≡ j = cc in
          let now : set s.calls i (returned (console_submit input)) i ≡ asking =
            subst (λ k. set s.calls i (returned (console_submit input)) k ≡ asking) (sym same) e in
          absurd (
            let q : returned (console_submit input) ≡ asking =
              sym (set_same s.calls i (returned (console_submit input))) ∙ now in
            cc)
    ];
    held = λ j e. absurd (cc);
    decided = λ j result e.
        elim (set-cases s.calls i (returned (console_submit input)) j (returned result) e) [
          | inl (same, on) ↦
              let (back, last) = (inv.opens i reads).1 in
              record {
                front = [];
                input = input;
                back = back;
                split =
                    ap (◌∷◌ (typed input)) (last ∙ ap (λ k. question (client k) ∷ back) (sym same));
                decides = cc;
              }
          | inr before ↦ later (typed input) s.lines j result (inv.decided j result before)
        ];
  }

  step-Inv : (s t : ConsoleApprover) → Inv s → Step client s t → Inv t
  step-Inv s t inv (asks i waits free e) = subst Inv (sym e) (asks-Inv s i inv free)
  step-Inv s t inv (reads_line i input reads e) = subst Inv (sym e) (reads-Inv s i input inv reads)

  reach-Inv : (s : ConsoleApprover) → Reach client s → Inv s
  reach-Inv s start = record {
    opens = λ i e. absurd (cc);
    held = λ i e. absurd (cc);
    decided = λ i result e. absurd (cc);
  }
  reach-Inv t (next {s} r step) = step-Inv s t (reach-Inv s r) step

  -- However the calls on one approver take turns: a call that has returned gave the answer of the line
  -- that was typed right behind the question for its client.
  pub submit-Decided :
      (s : ConsoleApprover) (i : ℕ) (result : Option Bool)
      → Reach client s
      → s.calls i ≡ returned result
      → Decided s.lines i result
  submit-Decided s i result r e = (reach-Inv s r).decided i result e

  -- At most one call reads from the console at a time, and the question of that call is the last line
  -- there.
  pub asking_alone :
      (s : ConsoleApprover) (i j : ℕ)
      → Reach client s
      → s.calls i ≡ asking
      → s.calls j ≡ asking
      → (i ≡ j) × ((back : List ConsoleLine) × (s.lines ≡ question (client i) ∷ back))
  asking_alone s i j r a b =
      let inv = reach-Inv s r in
      let p : some i ≡ some j = sym (inv.opens i a).0 ∙ (inv.opens j b).0 in (cc, (inv.opens i a).1)

  -- From every state that the calls can come to, turns lead to the question of a call that waits for
  -- the lock: at once where nobody holds the lock, with that question alone as new line; or behind
  -- one line, any that is typed, which answers the one call that reads.
  pub waiting_can_ask :
      (s : ConsoleApprover) (i : ℕ) (input : Option (List ℕ))
      → Reach client s
      → s.calls i ≡ waiting
      → (t : ConsoleApprover) × Turns client s t
        × (t.calls i ≡ asking)
        × (((s.lock ≡ none) × (t.lines ≡ question (client i) ∷ s.lines))
            ⊎ ((j : ℕ) × (s.calls j ≡ asking)
                × (t.calls j ≡ returned (console_submit input))
                × (t.lines ≡ question (client i) ∷ typed input ∷ s.lines)))
  waiting_can_ask s i input r e = elim (Option-cases s.lock) [
    | inl free ↦
        let t = asked s i in
        (t, turn here (asks i e free refl), set_same s.calls i asking, inl (free, refl))
    | inr (j, by) ↦
        let reads = (reach-Inv s r).held j by in
        let u = answered s j input in
        let other : u.calls i ≡ waiting =
          set_other s.calls j (returned (console_submit input)) i
            (λ same. reads_not s i e (subst (λ k. s.calls k ≡ asking) (sym same) reads))
          ∙ e in
        (
          asked u i,
          turn (turn here (reads_line j input reads refl)) (asks i other refl refl),
          set_same u.calls i asking,
          inr (
            j,
            reads,
            set_other u.calls i asking j
                  (λ same. reads_not s i e (subst (λ k. s.calls k ≡ asking) same reads))
                ∙ set_same s.calls j (returned (console_submit input)),
            refl,
          ),
        )
  ]
