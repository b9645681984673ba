-- ===== src/Common/Lists.antt =====
-- Lists measured and cut by native numbers.
use Prim.Native.Nat.{ℕ, zero, suc, ◌+◌, ◌-◌, ◌≤◌, min}
use mathlib.Core.Path.{◌≡◌, refl, ap, sym, subst}
use mathlib.Core.Logic.{◌⊎◌, inl, inr}
use mathlib.Core.List.{List, [], ◌∷◌, ◌++◌}
use mathlib.Core.Option.{Option, none, some}
use native.Mathlib.Nat.{zero-add, suc-add}
use native.Mathlib.Numerals.{unary_clauses}
use native.Mathlib.Omega.{arith}

module _ {ℓ} {A : Type ℓ} where
  abbrev pub length : List A → ℕ
  length [] = 0
  length (x ∷ xs) = suc (length xs)

  abbrev pub take : ℕ → List A → List A
  take zero xs = []
  take (suc n) [] = []
  take (suc n) (x ∷ xs) = x ∷ take n xs

  abbrev pub drop : ℕ → List A → List A
  drop zero xs = xs
  drop (suc n) [] = []
  drop (suc n) (x ∷ xs) = drop n xs

  abbrev pub get_elem? : List A → ℕ → Option A
  get_elem? [] i = none
  get_elem? (x ∷ xs) zero = some x
  get_elem? (x ∷ xs) (suc i) = get_elem? xs i

  abbrev pub replicate : ℕ → A → List A
  replicate zero a = []
  replicate (suc n) a = a ∷ replicate n a

  pub length-append : (xs ys : List A) → length (xs ++ ys) ≡ length xs + length ys
  length-append [] ys = omega arith
  length-append (x ∷ xs) ys = omega (arith, length-append xs ys)

  pub length-replicate : (n : ℕ) (a : A) → length (replicate n a) ≡ n
  length-replicate zero a = refl
  length-replicate (suc n) a = ap suc (length-replicate n a)

  pub length-take : (n : ℕ) (xs : List A) → length (take n xs) ≡ min n (length xs)
  length-take zero xs = omega arith
  length-take (suc n) [] = omega arith
  length-take (suc n) (x ∷ xs) = omega (arith, length-take n xs)

  pub length-drop : (n : ℕ) (xs : List A) → length (drop n xs) ≡ length xs - n
  length-drop zero xs = omega arith
  length-drop (suc n) [] = omega arith
  length-drop (suc n) (x ∷ xs) = omega (arith, length-drop n xs)

  pub take-append-drop : (n : ℕ) (xs : List A) → take n xs ++ drop n xs ≡ xs
  take-append-drop zero xs = refl
  take-append-drop (suc n) [] = refl
  take-append-drop (suc n) (x ∷ xs) = ap (◌∷◌ x) (take-append-drop n xs)

  pub take_all : (n : ℕ) (xs : List A) → length xs ≤ n → take n xs ≡ xs
  take_all zero [] h = refl
  take_all (suc n) [] h = refl
  take_all zero (x ∷ xs) h = absurd (omega arith)
  take_all (suc n) (x ∷ xs) h = ap (◌∷◌ x) (take_all n xs (omega arith))

  pub drop_all : (xs : List A) → drop (length xs) xs ≡ []
  drop_all [] = refl
  drop_all (x ∷ xs) = drop_all xs

  pub take-append_length : (xs ys : List A) → take (length xs) (xs ++ ys) ≡ xs
  take-append_length [] ys = refl
  take-append_length (x ∷ xs) ys = ap (◌∷◌ x) (take-append_length xs ys)

  pub drop-append_length : (xs ys : List A) → drop (length xs) (xs ++ ys) ≡ ys
  drop-append_length [] ys = refl
  drop-append_length (x ∷ xs) ys = drop-append_length xs ys

  -- A cut inside the first list leaves the second whole.
  pub take-append_le : (n : ℕ) (xs ys : List A) → n ≤ length xs → take n (xs ++ ys) ≡ take n xs
  take-append_le zero xs ys h = refl
  take-append_le (suc n) [] ys h = absurd (omega arith)
  take-append_le (suc n) (x ∷ xs) ys h = ap (◌∷◌ x) (take-append_le n xs ys (omega arith))

  pub drop-append_le :
      (n : ℕ) (xs ys : List A) → n ≤ length xs → drop n (xs ++ ys) ≡ drop n xs ++ ys
  drop-append_le zero xs ys h = refl
  drop-append_le (suc n) [] ys h = absurd (omega arith)
  drop-append_le (suc n) (x ∷ xs) ys h = drop-append_le n xs ys (omega arith)

  -- A cut inside the second list leaves the first whole.
  pub take-append_ge :
      (n : ℕ) (xs ys : List A) → length xs ≤ n → take n (xs ++ ys) ≡ xs ++ take (n - length xs) ys
  take-append_ge zero [] ys h = refl
  take-append_ge (suc n) [] ys h = simp unary_clauses
  take-append_ge zero (x ∷ xs) ys h = absurd (omega arith)
  take-append_ge (suc n) (x ∷ xs) ys h =
      simp unary_clauses (ap (◌∷◌ x) (take-append_ge n xs ys (omega arith)))

  pub drop-append_ge :
      (n : ℕ) (xs ys : List A) → length xs ≤ n → drop n (xs ++ ys) ≡ drop (n - length xs) ys
  drop-append_ge zero [] ys h = refl
  drop-append_ge (suc n) [] ys h = simp unary_clauses
  drop-append_ge zero (x ∷ xs) ys h = absurd (omega arith)
  drop-append_ge (suc n) (x ∷ xs) ys h = simp unary_clauses (drop-append_ge n xs ys (omega arith))

  pub take-add : (m n : ℕ) (xs : List A) → take (m + n) xs ≡ take m xs ++ take n (drop m xs)
  take-add zero n xs = simp zero-add
  take-add (suc m) zero [] = simp unary_clauses
  take-add (suc m) (suc n) [] = simp unary_clauses
  take-add (suc m) n (x ∷ xs) = rw suc-add (ap (◌∷◌ x) (take-add m n xs))

  pub drop-add : (m n : ℕ) (xs : List A) → drop (m + n) xs ≡ drop n (drop m xs)
  drop-add zero n xs = simp zero-add
  drop-add (suc m) zero [] = simp unary_clauses
  drop-add (suc m) (suc n) [] = simp unary_clauses
  drop-add (suc m) n (x ∷ xs) = rw suc-add (drop-add m n xs)

  -- A short take moves on as far as the long one.
  pub drop-length-take : (k : ℕ) (xs : List A) → drop (length (take k xs)) xs ≡ drop k xs
  drop-length-take zero xs = refl
  drop-length-take (suc k) [] = refl
  drop-length-take (suc k) (x ∷ xs) = drop-length-take k xs

  abbrev pub All {κ} : (A → Type κ) → List A → Type κ
  All P [] = Unit {κ}
  All P (x ∷ xs) = P x × All P xs

  abbrev pub concat : List (List A) → List A
  concat [] = []
  concat (x ∷ xs) = x ++ concat xs

module _ {A : Type 0} where
  -- A value stands somewhere in a list.
  abbrev pub Occurs : A → List A → Type 0
  Occurs a [] = ⊥
  Occurs a (x ∷ xs) = (a ≡ x) ⊎ Occurs a xs

  pub Occurs-append_left : (a : A) (xs ys : List A) → Occurs a xs → Occurs a (xs ++ ys)
  Occurs-append_left a [] ys h = absurd h
  Occurs-append_left a (x ∷ xs) ys (inl e) = inl e
  Occurs-append_left a (x ∷ xs) ys (inr h) = inr (Occurs-append_left a xs ys h)

  pub Occurs-append_right : (a : A) (xs ys : List A) → Occurs a ys → Occurs a (xs ++ ys)
  Occurs-append_right a [] ys h = h
  Occurs-append_right a (x ∷ xs) ys h = inr (Occurs-append_right a xs ys h)

  pub Occurs-append : (a : A) (xs ys : List A) → Occurs a (xs ++ ys) → Occurs a xs ⊎ Occurs a ys
  Occurs-append a [] ys h = inr h
  Occurs-append a (x ∷ xs) ys (inl e) = inl (inl e)
  Occurs-append a (x ∷ xs) ys (inr h) = elim (Occurs-append a xs ys h) [
    | inl l ↦ inl (inr l)
    | inr r ↦ inr r
  ]

  pub All-Occurs {κ} : (P : A → Type κ) (a : A) (xs : List A) → All P xs → Occurs a xs → P a
  All-Occurs P a [] h o = absurd o
  All-Occurs P a (x ∷ xs) h (inl e) = subst P (sym e) h.0
  All-Occurs P a (x ∷ xs) h (inr o) = All-Occurs P a xs h.1 o
