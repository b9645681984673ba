-- ===== src/Server/Builder.antt =====
-- What the builder makes of its settings.
use hubtain.Common.{
  ℕ, ◌≡◌, ◌≢◌, refl, sym, ap, ◌∙◌, Bool, true, false, ◌⊎◌, Bool-cases, Option-cases, leb, some, inl,
  inr, List, [], ◌∷◌, arith,
}
use hubtain.Stream.{Sock, poll, panic}
use hubtain.Approval.{ClientApprovalStrategy, interactive, ClientApprover}
use hubtain.Files.{AsyncFileReader}
use hubtain.EncryptedStream.{Noise}
use hubtain.EncryptedStream.Server.{approve}
use hubtain.Server.{
  FileSrv, FileSrvBuilder, BuildEnv, HolePuncher, new, set_udp_port, set_stayalive, set_holepuncher,
  set_encryption, build,
}

-- One call of a setter.
pub data Setting : Type 0 where
  udp_port : ℕ → Setting
  stayalive : Bool → Setting
  holepuncher : HolePuncher → Setting
  encryption : Bool → Setting

unfoldable pub apply : FileSrvBuilder → Setting → FileSrvBuilder
apply b (udp_port port) = set_udp_port b port
apply b (stayalive on) = set_stayalive b on
apply b (holepuncher h) = set_holepuncher b h
apply b (encryption on) = set_encryption b on

unfoldable pub configure : FileSrvBuilder → List Setting → FileSrvBuilder
configure b [] = b
configure b (s ∷ ss) = configure (apply b s) ss

-- Encryption comes with the interactive strategy.
abbrev pub AsksIfEncrypted : Bool → ClientApprovalStrategy → Type 0
AsksIfEncrypted encrypted strategy = (encrypted ≡ false) ⊎ (strategy ≡ interactive)

apply-AsksIfEncrypted :
    (b : FileSrvBuilder) (s : Setting)
    → AsksIfEncrypted b.encryption b.client_approval_strategy
    → AsksIfEncrypted (apply b s).encryption (apply b s).client_approval_strategy
unfolding apply set_udp_port set_stayalive set_holepuncher set_encryption
apply-AsksIfEncrypted b (udp_port port) h = h
apply-AsksIfEncrypted b (stayalive on) h = h
apply-AsksIfEncrypted b (holepuncher p) h = h
apply-AsksIfEncrypted b (encryption true) h = inr refl
apply-AsksIfEncrypted b (encryption false) h = inl refl

configure-AsksIfEncrypted :
    (ss : List Setting) (b : FileSrvBuilder)
    → AsksIfEncrypted b.encryption b.client_approval_strategy
    → AsksIfEncrypted (configure b ss).encryption (configure b ss).client_approval_strategy
unfolding configure
configure-AsksIfEncrypted [] b h = h
configure-AsksIfEncrypted (s ∷ ss) b h =
    configure-AsksIfEncrypted ss (apply b s) (apply-AsksIfEncrypted b s h)

-- What `build` takes over.
pub build_fields :
    (env : BuildEnv) (b : FileSrvBuilder) (srv : FileSrv)
    → build env b ≡ some srv
    → (srv.encrypted ≡ b.encryption)
      × (srv.client_approval_strategy ≡ b.client_approval_strategy)
      × (srv.stay_alive ≡ b.stay_alive)
      × (srv.data_length ≡ b.content.file_size)
      × (srv.holepuncher ≡ b.holepunch)
      × (env.is_file b.file_path ≡ true)
      × (env.file_name b.file_path ≡ some srv.file_name)
      × (srv.content ≡ b.content)
unfolding build
build_fields env b srv e = ground arith

configure-content : (ss : List Setting) (b : FileSrvBuilder) → (configure b ss).content ≡ b.content
unfolding configure apply set_udp_port set_stayalive set_holepuncher set_encryption
configure-content [] b = refl
configure-content (udp_port port ∷ ss) b = configure-content ss _
configure-content (stayalive on ∷ ss) b = configure-content ss _
configure-content (holepuncher p ∷ ss) b = configure-content ss _
configure-content (encryption true ∷ ss) b = configure-content ss _
configure-content (encryption false ∷ ss) b = configure-content ss _

-- Whatever the settings, the server has the reader that the builder was made with, and its length.
pub build-content :
    (env : BuildEnv) (reader : AsyncFileReader) (ss : List Setting) (srv : FileSrv)
    → build env (configure (new reader) ss) ≡ some srv
    → (srv.content ≡ reader) × (srv.data_length ≡ reader.file_size)
unfolding new
build-content env reader ss srv e =
    let (_, _, _, len, _, _, _, same) = build_fields env (configure (new reader) ss) srv e in
    let kept = configure-content ss (new reader) in
    (same ∙ kept, len ∙ ap (λ (r : AsyncFileReader). r.file_size) kept)

-- A server built from any settings, made in any order, asks before it serves encrypted: if it
-- encrypts, its strategy is the interactive one.
pub build-interactive :
    (env : BuildEnv) (reader : AsyncFileReader) (ss : List Setting) (srv : FileSrv)
    → build env (configure (new reader) ss) ≡ some srv
    → srv.encrypted ≡ true
    → srv.client_approval_strategy ≡ interactive
build-interactive env reader ss srv e on =
    let fields = build_fields env (configure (new reader) ss) srv e in
    let start : AsksIfEncrypted (new reader).encryption (new reader).client_approval_strategy =
      unfold new in inl refl in
    elim (configure-AsksIfEncrypted ss (new reader) start) [
      | inl off ↦ absurd (let p : ◌≡◌ {A = Bool} true false = sym on ∙ fields.0 ∙ off in cc)
      | inr asks ↦ fields.1 ∙ asks
    ]

approve_ne_panic :
    (n : Noise) (approver : ClientApprover) (key : List ℕ) (s : Sock)
    → (poll (approve n interactive approver key) s).0 ≢ panic
unfolding approve poll
approve_ne_panic n approver key s = elim (Option-cases (approver (record { pubkey = key }))) [
  | inl e ↦ rw e (λ p. cc)
  | inr (true, e) ↦ rw e (elim (Bool-cases s.broken) [
    | inl b ↦ rw b (λ p. cc)
    | inr b ↦ elim (Bool-cases (leb 1 s.room)) [
      | inl h ↦ rw (b, h) (λ p. cc)
      | inr h ↦ rw (b, h) (λ p. cc)
    ]
  ])
  | inr (false, e) ↦ rw e (elim (Bool-cases s.broken) [
    | inl b ↦ rw b (λ p. cc)
    | inr b ↦ elim (Bool-cases (leb 1 s.room)) [
      | inl h ↦ rw (b, h) (λ p. cc)
      | inr h ↦ rw (b, h) (λ p. cc)
    ]
  ])
]

-- The panic for the strategy that approves all is out of reach: the approval step of a server that
-- encrypts, built from any settings, does not panic on any socket.
build-approve :
    (env : BuildEnv) (reader : AsyncFileReader) (ss : List Setting) (srv : FileSrv) (n : Noise)
    (approver : ClientApprover) (key : List ℕ) (s : Sock)
    → build env (configure (new reader) ss) ≡ some srv
    → srv.encrypted ≡ true
    → (poll (approve n srv.client_approval_strategy approver key) s).0 ≢ panic
build-approve env reader ss srv n approver key s e on =
    rw (build-interactive env reader ss srv e on) (approve_ne_panic n approver key s)
