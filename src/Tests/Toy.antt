-- ===== src/Tests/Toy.antt =====
-- A small instance of each parameter: a noise protocol whose messages carry the plain text behind 16
-- bytes, and encodings of the two records.
use hubtain.Common.{
  ℕ, suc, ◌+◌, ◌-◌, ◌≤◌, ◌<◌, ◌≡◌, refl, sym, ap, ◌∙◌, Bool-cases, inl, inr, leb, le→leb, lt→leb,
  if◌then◌else◌, List, [], ◌∷◌, ◌++◌, Option, none, some, arith, length, drop, replicate,
}
use hubtain.Framing.{max_chunk_size}
use hubtain.EncryptedStream.{Noise, TransportLaws, Keypair}
use hubtain.EncryptedStream.Agreement.{Exchange}

abbrev pub tag : ℕ → List ℕ
tag w = replicate 16 w

abbrev pub toy_encrypt : ℕ → List ℕ → Option (List ℕ × ℕ)
toy_encrypt w p = if leb (length p + 16) max_chunk_size then some (tag w ++ p, suc w) else none

abbrev pub toy_decrypt : ℕ → List ℕ → ℕ → Option (List ℕ) × ℕ
toy_decrypt r m room = if leb (length m - 16) room then (some (drop 16 m), suc r) else (none, r)

abbrev pub client_key : Keypair
client_key = record { public = 7 ∷ 8 ∷ []; private = 9 ∷ [] }

abbrev pub server_key : Keypair
server_key = record { public = 5 ∷ []; private = 6 ∷ [] }

abbrev pub toy : Noise
toy = record {
  Handshake = ℕ;
  Transport = ℕ;
  build_initiator = λ key. some 0;
  build_responder = λ key. some 10;
  write_message = λ h p. some (h ∷ [], suc h);
  read_message = λ h m. some ([], suc h);
  get_remote_static = λ h. some (7 ∷ 8 ∷ []);
  into_transport_mode = λ h. some 0;
  encrypt = toy_encrypt;
  decrypt = toy_decrypt;
}

pub toy_fits :
    (w : ℕ) (p : List ℕ)
    → length p + 16 ≤ max_chunk_size
    → (m : List ℕ) × (w' : ℕ) × (toy_encrypt w p ≡ some (m, w')) × (length m ≡ length p + 16)
toy_fits w p h = (tag w ++ p, suc w, rw (le→leb _ _ h), omega arith)

pub toy_too_long : (w : ℕ) (p : List ℕ) → max_chunk_size < length p + 16 → toy_encrypt w p ≡ none
toy_too_long w p h = rw (lt→leb _ _ h)

pub toy_reads :
    (w r : ℕ) (p m : List ℕ) (w' : ℕ) (room : ℕ)
    → w ≡ r
    → toy_encrypt w p ≡ some (m, w')
    → length p ≤ room
    → (r' : ℕ) × (toy_decrypt r m room ≡ (some p, r')) × (w' ≡ r')
toy_reads w r p m w' room same e h = elim (Bool-cases (leb (length p + 16) max_chunk_size)) [
  | inl fits ↦
      let sent : ◌≡◌ {A = Option (List ℕ × ℕ)} (some (tag w ++ p, suc w)) (some (m, w')) =
        rw fits at e in
      let is : tag w ++ p ≡ m = cc in
      let moves : suc w ≡ w' = cc in
      (
        suc r,
        rw (← is, le→leb (length (tag w ++ p) - 16) room (omega arith)) refl,
        sym moves ∙ ap suc same,
      )
  | inr long ↦
      absurd (let p : ◌≡◌ {A = Option (List ℕ × ℕ)} none (some (m, w')) = rw long at e in cc)
]

abbrev pub toy_laws : TransportLaws toy
toy_laws = record {
  Paired = ◌≡◌;
  encrypt_fits = toy_fits;
  encrypt_too_long = toy_too_long;
  decrypt-encrypt = toy_reads;
}

abbrev pub toy_exchange : Exchange toy toy_laws client_key server_key
toy_exchange = record {
  i₀ = 0;
  i₁ = 1;
  i₂ = 2;
  i₃ = 3;
  r₀ = 10;
  r₁ = 11;
  r₂ = 12;
  r₃ = 13;
  m₁ = 0 ∷ [];
  m₂ = 11 ∷ [];
  m₃ = 2 ∷ [];
  client_transport = 0;
  server_transport = 0;
  initiates = refl;
  responds = refl;
  writes₁ = refl;
  reads₁ = refl;
  writes₂ = refl;
  reads₂ = refl;
  writes₃ = refl;
  reads₃ = refl;
  remote = refl;
  client_ends = refl;
  server_ends = refl;
  peers = refl;
  small₁ = omega arith;
  small₂ = omega arith;
  small₃ = omega arith;
}
