-- ===== src/Approval/Answers.antt =====
-- Which lines on the console approve a client.
use mathlib.Core.List.{reverse_aux, reverse-append, reverse-reverse}
use hubtain.Common.{
  ℕ, ◌+◌, ◌≤◌, ◌≡◌, ◌↔◌, ◌⊎◌, inl, inr, refl, sym, ap, ◌∙◌, subst, ◌||◌, Bool, true, false,
  Bool-cases, if◌then◌else◌, ◌==◌, ◌&&◌, List, [], ◌∷◌, ◌++◌, reverse, some, All, arith,
}
use hubtain.Approval.{
  console_submit, codes, is_whitespace, trim_start, trim_end, trim, to_ascii_lowercase,
  eq_ignore_ascii_case,
}

abbrev pub White : ℕ → Type 0
White c = is_whitespace c ≡ true

-- The word is spelled by these lower-case letters, each of which may stand as the capital letter.
abbrev pub Spells : List ℕ → List ℕ → Type 0
Spells [] [] = Unit
Spells (l ∷ ls) (c ∷ cs) = ((c ≡ l) ⊎ (c + 32 ≡ l)) × Spells ls cs
Spells [] (c ∷ cs) = ⊥
Spells (l ∷ ls) [] = ⊥

abbrev pub IsYes : List ℕ → Type 0
IsYes word = Spells (codes "y") word ⊎ Spells (codes "yes") word

-- `y` or `yes`, with white space alone around it.
pub record Affirms (input : List ℕ) : Type 0 where
  pub front : List ℕ
  pub word : List ℕ
  pub back : List ℕ
  pub split : input ≡ front ++ (word ++ back)
  pub white_front : All White front
  pub white_back : All White back
  pub yes : IsYes word

abbrev IsLower : ℕ → Type 0
IsLower l = (97 ≤ l) × (l ≤ 122)

same_letter :
    (c l : ℕ)
    → IsLower l
    → ((to_ascii_lowercase c == to_ascii_lowercase l) ≡ true) ↔ ((c ≡ l) ⊎ (c + 32 ≡ l))
same_letter c l h = (λ e. ground arith, λ e. ground arith)

both : (c d : Bool) → (c && d) ≡ true → (c ≡ true) × (d ≡ true)
both true true h = (refl, refl)
both true false h = absurd (ground arith)
both false d h = absurd (ground arith)

eq_ignore_ascii_case_iff :
    (cs ls : List ℕ) → All IsLower ls → (eq_ignore_ascii_case cs ls ≡ true) ↔ Spells ls cs
unfolding eq_ignore_ascii_case
eq_ignore_ascii_case_iff [] [] h = (λ e. tt, λ s. refl)
eq_ignore_ascii_case_iff [] (l ∷ ls) h = (λ e. absurd (ground arith), λ s. absurd s)
eq_ignore_ascii_case_iff (c ∷ cs) [] h = (λ e. absurd (ground arith), λ s. absurd s)
eq_ignore_ascii_case_iff (c ∷ cs) (l ∷ ls) (h, hs) =
    let (to, from) = eq_ignore_ascii_case_iff cs ls hs in
    (
      λ e.
          let (same, rest) =
            both (to_ascii_lowercase c == to_ascii_lowercase l) (eq_ignore_ascii_case cs ls) e in
          ((same_letter c l h).0 same, to rest),
      λ (same, rest). rw ((same_letter c l h).1 same, from rest) refl,
    )

y-IsLower : All IsLower (codes "y")
y-IsLower = ((omega arith, omega arith), tt)

yes-IsLower : All IsLower (codes "yes")
yes-IsLower =
    ((omega arith, omega arith), ((omega arith, omega arith), ((omega arith, omega arith), tt)))

All-reverse_aux :
    (cs done : List ℕ) → All White cs → All White done → All White (reverse_aux cs done)
All-reverse_aux [] done h d = d
All-reverse_aux (c ∷ cs) done (w, h) d = All-reverse_aux cs (c ∷ done) h (w, d)

All-reverse : (cs : List ℕ) → All White cs → All White (reverse cs)
All-reverse cs h = All-reverse_aux cs [] h tt

-- What `trim_start` takes off is white space.
trim_start-split :
    (cs : List ℕ) → (front : List ℕ) × (cs ≡ front ++ trim_start cs) × All White front
unfolding trim_start
trim_start-split [] = ([], refl, tt)
trim_start-split (c ∷ cs) = elim (Bool-cases (is_whitespace c)) [
  | inl white ↦
      let (front, e, h) = trim_start-split cs in (c ∷ front, rw white (ap (◌∷◌ c) e), (white, h))
  | inr black ↦ ([], rw black refl, tt)
]

trim_end-split : (cs : List ℕ) → (back : List ℕ) × (cs ≡ trim_end cs ++ back) × All White back
trim_end-split cs =
    let (front, e, h) = trim_start-split (reverse cs) in
    (
      reverse front,
      sym (reverse-reverse cs) ∙ ap reverse e ∙ reverse-append front (trim_start (reverse cs)),
      All-reverse front h,
    )

-- White space in front is taken off.
trim_start-White : (front cs : List ℕ) → All White front → trim_start (front ++ cs) ≡ trim_start cs
unfolding trim_start
trim_start-White [] cs h = refl
trim_start-White (c ∷ front) cs (w, h) = rw w (trim_start-White front cs h)

-- A word that neither begins nor ends with white space.
abbrev Trimmed : List ℕ → Type 0
Trimmed word =
    ((cs : List ℕ) → trim_start (word ++ cs) ≡ word ++ cs)
    × (trim_start (reverse word) ≡ reverse word)

trim-Trimmed :
    (front word back : List ℕ)
    → All White front
    → All White back
    → Trimmed word
    → trim (front ++ (word ++ back)) ≡ word
trim-Trimmed front word back hf hb (begins, ends) =
    ap trim_end (trim_start-White front (word ++ back) hf ∙ begins back)
    ∙ ap (λ cs. reverse (trim_start cs)) (reverse-append word back)
    ∙ ap reverse (trim_start-White (reverse back) (reverse word) (All-reverse back hb) ∙ ends)
    ∙ reverse-reverse word

letter : (c l : ℕ) → IsLower l → (c ≡ l) ⊎ (c + 32 ≡ l) → is_whitespace c ≡ false
unfolding is_whitespace
letter c l h s = ground arith

IsYes-Trimmed : (word : List ℕ) → IsYes word → Trimmed word
unfolding trim_start
IsYes-Trimmed (c ∷ []) (inl (s, r)) =
    let black = letter c 121 (omega arith, omega arith) s in (λ cs. rw black refl, rw black refl)
IsYes-Trimmed (c ∷ d ∷ e ∷ []) (inr (s, (m, (r, t)))) =
    let first = letter c 121 (omega arith, omega arith) s in
    let last = letter e 115 (omega arith, omega arith) r in (λ cs. rw first refl, rw last refl)
IsYes-Trimmed [] (inl s) = absurd s
IsYes-Trimmed [] (inr s) = absurd s
IsYes-Trimmed (c ∷ d ∷ cs) (inl (s, r)) = absurd r
IsYes-Trimmed (c ∷ []) (inr (s, r)) = absurd r
IsYes-Trimmed (c ∷ d ∷ []) (inr (s, (m, r))) = absurd r
IsYes-Trimmed (c ∷ d ∷ e ∷ f ∷ cs) (inr (s, (m, (r, t)))) = absurd t

trimmed_iff : (input : List ℕ) → IsYes (trim input) ↔ Affirms input
trimmed_iff input =
    let (front, starts, hf) = trim_start-split input in
    let (back, ends, hb) = trim_end-split (trim_start input) in
    (
      λ y. record {
        front = front;
        word = trim input;
        back = back;
        split = starts ∙ ap (◌++◌ front) ends;
        white_front = hf;
        white_back = hb;
        yes = y;
      },
      λ a.
          let is : trim input ≡ a.word =
            ap trim a.split
            ∙ trim-Trimmed a.front a.word a.back a.white_front a.white_back
                (IsYes-Trimmed a.word a.yes) in
          subst IsYes (sym is) a.yes,
    )

answer_iff :
    (c d : Bool) {Y E : Type 0}
    → (c ≡ true) ↔ Y
    → (d ≡ true) ↔ E
    → ((some (if c || d then true else false) ≡ some true) ↔ (Y ⊎ E))
      × ((some (if c || d then true else false) ≡ some true)
          ⊎ (some (if c || d then true else false) ≡ some false))
answer_iff true d y e = ((λ h. inl (y.0 refl), λ h. refl), inl refl)
answer_iff false true y e = ((λ h. inr (e.0 refl), λ h. refl), inl refl)
answer_iff false false y e = (
  (
    λ h. absurd (let p : ◌≡◌ {A = Bool} false true = cc in cc),
    λ h. elim h [
      | inl is ↦ absurd (let p : ◌≡◌ {A = Bool} false true = y.1 is in cc)
      | inr is ↦ absurd (let p : ◌≡◌ {A = Bool} false true = e.1 is in cc)
    ],
  ),
  inr refl,
)

-- The line approves the client exactly if it is `y` or `yes`, each letter small or capital, with
-- white space alone before and behind; every other line turns the client down.
pub console_submit_iff :
    (input : List ℕ)
    → ((console_submit (some input) ≡ some true) ↔ Affirms input)
      × ((console_submit (some input) ≡ some true) ⊎ (console_submit (some input) ≡ some false))
unfolding console_submit
console_submit_iff input =
    let (answers, decides) =
      answer_iff _ _ (eq_ignore_ascii_case_iff (trim input) (codes "y") y-IsLower)
        (eq_ignore_ascii_case_iff (trim input) (codes "yes") yes-IsLower) in
    let (to, from) = trimmed_iff input in
    ((λ h. to (answers.0 h), λ a. answers.1 (from a)), decides)
