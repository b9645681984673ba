-- ===== src/Names.antt =====
-- models.rs (the `Display` of ClientId) and mnemonic.rs: the names that people see. A text is a list of
-- bytes.
use hubtain.Common.{
  ℕ, zero, suc, ◌+◌, ◌*◌, ◌/◌, ◌%◌, ◌^◌, ◌<◌, ◌≡◌, ◌↔◌, sym, ap, ◌∙◌, List, [], ◌∷◌, Option, some,
  arith, ◌==◌, if◌then◌else◌, if-either, All, Bool-cases, false, refl, inl, inr, get_elem?, length,
}
use native.Mathlib.Numerals.{unary_clauses}
use hubtain.Approval.{ClientId}

-- The crate `mnemonic`: words for bytes, and bytes for words.
pub record Mnemonic : Type 0 where
  pub to_string : List ℕ → List ℕ
  pub decode : List ℕ → Option (List ℕ)

-- `decode` reads what `to_string` writes.
abbrev pub MnemonicLaw : Mnemonic → Type 0
MnemonicLaw mnemonic = (bytes : List ℕ) → mnemonic.decode (mnemonic.to_string bytes) ≡ some bytes

-- The bytes of a number, the lowest first.
pub le_bytes : ℕ → ℕ → List ℕ
le_bytes zero n = []
le_bytes (suc k) n = (n % 256) ∷ le_bytes k (n / 256)

-- `u64::to_le_bytes`
abbrev pub to_le_bytes : ℕ → List ℕ
to_le_bytes = le_bytes 8

-- What `DefaultHasher` makes of the bytes of a key is an argument.
module _ (mnemonic : Mnemonic) (hash : List ℕ → ℕ) where
  -- The `Display` of a ClientId.
  abbrev pub fmt : ClientId → List ℕ
  fmt self = mnemonic.to_string (to_le_bytes (hash self.pubkey))

from_le_bytes : List ℕ → ℕ
from_le_bytes [] = 0
from_le_bytes (b ∷ bs) = b + 256 * from_le_bytes bs

from_le_bytes-le_bytes : (k n : ℕ) → n < 256 ^ k → from_le_bytes (le_bytes k n) ≡ n
unfolding from_le_bytes le_bytes
from_le_bytes-le_bytes zero n h = omega arith
from_le_bytes-le_bytes (suc k) n h =
    let power : 256 ^ suc k ≡ 256 ^ k * 256 = simp unary_clauses in
    let small : n / 256 < 256 ^ k = omega (arith, power, h) in
    let rest : from_le_bytes (le_bytes k (n / 256)) ≡ n / 256 =
      from_le_bytes-le_bytes k (n / 256) small in
    omega (arith, rest)

-- Two clients have the same name on the screen just if `DefaultHasher` makes the same 64-bit number of
-- their keys.
pub fmt-hash_iff :
    (mnemonic : Mnemonic) (hash : List ℕ → ℕ) (a b : ClientId)
    → MnemonicLaw mnemonic
    → ((key : List ℕ) → hash key < 2 ^ 64)
    → (fmt mnemonic hash a ≡ fmt mnemonic hash b) ↔ (hash a.pubkey ≡ hash b.pubkey)
fmt-hash_iff mnemonic hash a b law bounded = (
  λ e.
      let p : some (to_le_bytes (hash a.pubkey)) ≡ some (to_le_bytes (hash b.pubkey)) =
        sym (law _) ∙ ap mnemonic.decode e ∙ law _ in
      let q : to_le_bytes (hash a.pubkey) ≡ to_le_bytes (hash b.pubkey) = cc in
      sym (back a) ∙ ap from_le_bytes q ∙ back b,
  λ e. ap (λ h. mnemonic.to_string (to_le_bytes h)) e,
)
  where
    back : (id : ClientId) → from_le_bytes (to_le_bytes (hash id.pubkey)) ≡ hash id.pubkey
    back id = from_le_bytes-le_bytes 8 (hash id.pubkey) (bounded id.pubkey)

abbrev add_char : ℕ → List (List ℕ) → List (List ℕ)
add_char c [] = (c ∷ []) ∷ []
add_char c (line ∷ rest) = (c ∷ line) ∷ rest

-- `str::lines` on a text without carriage returns.
unfoldable lines : List ℕ → List (List ℕ)
lines [] = []
lines (c ∷ cs) = let rest = lines cs in if c == b'\n' then [] ∷ rest else add_char c rest

-- `random_word`, on the text of the word list and the index that `choose` draws below a length: `none`
-- stands for the panic of `unwrap`.
unfoldable random_word : List ℕ → (ℕ → ℕ) → Option (List ℕ)
unfolding lines
random_word words_dat draws =
    let word_list = lines words_dat in get_elem? word_list (draws (length word_list))

abbrev IsLine : List ℕ → Type 0
IsLine = All (λ c. (c == b'\n') ≡ false)

get_elem?-All :
    (xs : List (List ℕ)) (i : ℕ)
    → All IsLine xs
    → i < length xs
    → (x : List ℕ) × (get_elem? xs i ≡ some x) × IsLine x
get_elem?-All [] i h small = absurd (omega arith)
get_elem?-All (x ∷ xs) zero h small = (x, refl, h.0)
get_elem?-All (x ∷ xs) (suc i) h small = get_elem?-All xs i h.1 (omega arith)

add_char-All :
    (c : ℕ) (xs : List (List ℕ)) → (c == b'\n') ≡ false → All IsLine xs → All IsLine (add_char c xs)
add_char-All c [] e h = ((e, tt), tt)
add_char-All c (line ∷ rest) e h = ((e, h.0), h.1)

lines-All : (cs : List ℕ) → All IsLine (lines cs)
unfolding lines
lines-All [] = tt
lines-All (c ∷ cs) = elim (Bool-cases (c == b'\n')) [
  | inl e ↦ rw e (tt, lines-All cs)
  | inr e ↦ rw e (add_char-All c (lines cs) e (lines-All cs))
]

add_char-length : (c : ℕ) (xs : List (List ℕ)) → 0 < length (add_char c xs)
add_char-length c [] = omega arith
add_char-length c (line ∷ rest) = omega arith

-- On a word list with any text in it, `random_word` gives a word, and no word has a line feed in it.
random_word-IsLine :
    (c : ℕ) (cs : List ℕ) (draws : ℕ → ℕ)
    → ((n : ℕ) → 0 < n → draws n < n)
    → (word : List ℕ) × (random_word (c ∷ cs) draws ≡ some word) × IsLine word
unfolding random_word
random_word-IsLine c cs draws below =
    get_elem?-All (lines (c ∷ cs)) _ (lines-All (c ∷ cs)) (below _ (filled c cs))
  where
    filled : (c : ℕ) (cs : List ℕ) → 0 < length (lines (c ∷ cs))
    filled c cs =
        unfold lines in
        if-either (λ r. 0 < length r) (c == b'\n') ([] ∷ lines cs) (add_char c (lines cs)) some_line
          (add_char-length c (lines cs))
      where
        some_line : 0 < suc (length (lines cs))
        some_line = omega arith
