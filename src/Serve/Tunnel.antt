-- ===== src/Serve/Tunnel.antt =====
-- server/ngrok.rs: `get_tunnel`. The process and the crate `serde_json` are arguments.
use hubtain.Common.{
  ◌≡◌, refl, ap, ◌∙◌, Bool, true, false, if◌then◌else◌, Bool-cases, ◌↔◌, inl, inr, List, [], ◌∷◌,
  ◌++◌, ℕ, Option, none, some, Option-cases, All,
}

-- The message that gives the URL. Which message it is, in `msg`, is not looked at.
pub record TunnelStartedMsg : Type 0 where
  pub addr : List ℕ
  pub url : List ℕ
  pub msg : List ℕ
  pub lvl : List ℕ

-- A start of `ngrok`: whether the process spawns, whether its output is piped, the lines, `none` for one that
-- cannot be read, how `serde_json` reads one, and whether the process comes to its end by itself, before
-- `serve` does.
pub record NgrokRun : Type 0 where
  pub spawns : Bool
  pub has_stdout : Bool
  pub lines : List (Option (List ℕ))
  pub from_str : List ℕ → Option TunnelStartedMsg
  pub exits : Bool

-- The loop over the lines: the first that is the message ends it, and so does one that cannot be read.
unfoldable pub tunnel_url :
    (List ℕ → Option TunnelStartedMsg) → List (Option (List ℕ)) → Option (List ℕ)
tunnel_url from_str [] = none
tunnel_url from_str (none ∷ lines) = none
tunnel_url from_str (some line ∷ lines) = elim (from_str line) [
  | none ↦ tunnel_url from_str lines
  | some m ↦ some m.url
]

-- `get_tunnel`: the URL, or `none` for an error; and whether a process has been spawned, which on an error
-- nobody holds any more.
unfoldable pub get_tunnel : NgrokRun → Option (List ℕ) × Bool
unfolding tunnel_url
get_tunnel run =
    if run.spawns
    then (if run.has_stdout then tunnel_url run.from_str run.lines else none, true)
    else (none, false)

-- A line of text that is not the message.
abbrev pub IsOther : (List ℕ → Option TunnelStartedMsg) → Option (List ℕ) → Type 0
IsOther from_str l = (text : List ℕ) × (l ≡ some text) × (from_str text ≡ none)

-- The output has the message, behind other lines of text alone.
abbrev pub Announces : (List ℕ → Option TunnelStartedMsg) → List (Option (List ℕ)) → Type 0
Announces from_str lines =
    (front : List (Option (List ℕ))) × (line : List ℕ) × (m : TunnelStartedMsg) × (back : List
      (Option (List ℕ)))
    × (lines ≡ front ++ (some line ∷ back))
    × (from_str line ≡ some m)
    × All (IsOther from_str) front

finds :
    (from_str : List ℕ → Option TunnelStartedMsg) (lines : List (Option (List ℕ))) (url : List ℕ)
    → tunnel_url from_str lines ≡ some url
    → Announces from_str lines
unfolding tunnel_url
finds from_str [] url e = absurd (cc)
finds from_str (none ∷ lines) url e = absurd (cc)
finds from_str (some line ∷ lines) url e = elim (Option-cases (from_str line)) [
  | inl other ↦
      let (front, text, m, back, split, is, others) =
        finds from_str lines url (rw (other, tunnel_url) at e) in
      (
        some line ∷ front,
        text,
        m,
        back,
        ap (◌∷◌ (some line)) split,
        is,
        ((line, refl, other), others),
      )
  | inr (m, is) ↦ ([], line, m, lines, refl, is, tt)
]

found :
    (from_str : List ℕ → Option TunnelStartedMsg) (front : List (Option (List ℕ))) (line : List ℕ)
    (m : TunnelStartedMsg) (back : List (Option (List ℕ)))
    → from_str line ≡ some m
    → All (IsOther from_str) front
    → tunnel_url from_str (front ++ (some line ∷ back)) ≡ some m.url
unfolding tunnel_url
found from_str [] line m back is others = rw is refl
found from_str (l ∷ front) line m back is ((text, e, other), others) =
    ap (λ k. tunnel_url from_str (k ∷ (front ++ (some line ∷ back)))) e
    ∙ rw (other, tunnel_url) (found from_str front line m back is others)

pub announced_iff :
    (from_str : List ℕ → Option TunnelStartedMsg) (lines : List (Option (List ℕ)))
    → ((url : List ℕ) × (tunnel_url from_str lines ≡ some url)) ↔ Announces from_str lines
announced_iff from_str lines = (
  λ h. finds from_str lines h.0 h.1,
  λ (front, line, m, back, split, is, others).
      (m.url, ap (tunnel_url from_str) split ∙ found from_str front line m back is others),
)

pub get_tunnel-spawns : (run : NgrokRun) → (get_tunnel run).1 ≡ run.spawns
unfolding get_tunnel
get_tunnel-spawns run = elim (Bool-cases run.spawns) [ inl on ↦ rw on refl | inr off ↦ rw off refl ]

pub get_tunnel-some_iff :
    (run : NgrokRun) (url : List ℕ)
    → ((get_tunnel run).0 ≡ some url) ↔ (
        (run.spawns ≡ true)
        × (run.has_stdout ≡ true)
        × (tunnel_url run.from_str run.lines ≡ some url))
unfolding get_tunnel
get_tunnel-some_iff run url = elim (Bool-cases run.spawns) [
  | inl on ↦ elim (Bool-cases run.has_stdout) [
    | inl piped ↦ rw (on, piped) (λ e. (refl, refl, e), λ h. h.2)
    | inr off ↦ rw (on, off) (λ e. absurd (cc), λ h. absurd (cc))
  ]
  | inr off ↦ rw off (λ e. absurd (cc), λ h. absurd (cc))
]
