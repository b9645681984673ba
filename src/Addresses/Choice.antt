-- ===== src/Addresses/Choice.antt =====
-- The interface that is picked, and whether the two sides agree on it.
use mathlib.Core.Option
use hubtain.Common.{
  ℕ, ◌≡◌, ◌≢◌, refl, sym, ap, ◌∙◌, Bool-cases, Option-cases, Option, none, some, inl, inr, List, [],
  ◌∷◌, ◌++◌, arith, ◌==◌, All, ◌↔◌,
}
use hubtain.Addresses.{
  Ipv4Addr, Ifv4Addr, IfAddr, v4, v6, broadcast_of, local_ip_of, first_some, select_from_ips,
  select_broadcast_addr, find_local_ip, udp_srv_bind_addr,
}

-- An interface that both searches accept: IPv4, not loopback, a netmask that ends in 0, in 192.0.0.0/8.
abbrev pub IsLocal : IfAddr → Type 0
IsLocal (v4 addr) = (addr.ip.a ≡ 192) × (addr.netmask.d ≡ 0)
IsLocal v6 = ⊥

-- Where `first_some` stops.
first_some-split {ℓ κ} :
    {A : Type ℓ} {B : Type κ} (f : A → Option B) (xs : List A) (y : B)
    → first_some f xs ≡ some y
    → (front : List A) × (x : A) × (back : List A) × (xs ≡ front ++ (x ∷ back))
      × All (λ z. f z ≡ none) front
      × (f x ≡ some y)
unfolding first_some
first_some-split f [] y e = absurd (ground arith)
first_some-split f (x ∷ xs) y e = elim (Option-cases (f x)) [
  | inl n ↦
      let (front, z, back, same, before, at) = first_some-split f xs y (rw (n, first_some) at e) in
      (x ∷ front, z, back, ap (◌∷◌ x) same, (n, before), at)
  | inr (v, h) ↦ ([], x, xs, refl, tt, h ∙ (rw (h, first_some) at e))
]

first_some-none {ℓ κ} :
    {A : Type ℓ} {B : Type κ} (f : A → Option B) (xs : List A)
    → first_some f xs ≡ none
    → All (λ x. f x ≡ none) xs
unfolding first_some
first_some-none f [] e = tt
first_some-none f (x ∷ xs) e = elim (Option-cases (f x)) [
  | inl n ↦ (n, first_some-none f xs (rw (n, first_some) at e))
  | inr (v, h) ↦ absurd (let p : some v ≡ none = rw (h, first_some) at e in cc)
]

-- After elements that give nothing the first that gives something decides.
first_some-append {ℓ κ} :
    {A : Type ℓ} {B : Type κ} (f : A → Option B) (front : List A) (x : A) (back : List A) (y : B)
    → All (λ z. f z ≡ none) front
    → f x ≡ some y
    → first_some f (front ++ (x ∷ back)) ≡ some y
unfolding first_some
first_some-append f [] x back y h e = rw e
first_some-append f (z ∷ front) x back y h e = rw (h.0) (first_some-append f front x back y h.1 e)

local_ip_of-some :
    (x : IfAddr) (ip : Ipv4Addr)
    → local_ip_of x ≡ some ip
    → (addr : Ifv4Addr) × (x ≡ v4 addr) × IsLocal (v4 addr) × (addr.ip ≡ ip)
unfolding local_ip_of
local_ip_of-some (v4 addr) ip e = (addr, refl, ground arith, ground arith)
local_ip_of-some v6 ip e = absurd (ground arith)

local_ip_of-none : (x : IfAddr) → local_ip_of x ≡ none → ¬ IsLocal x
unfolding local_ip_of
local_ip_of-none (v4 addr) e h = ground arith
local_ip_of-none v6 e h = h

not_local : (x : IfAddr) → ¬ IsLocal x → (local_ip_of x ≡ none) × (broadcast_of x ≡ none)
unfolding local_ip_of broadcast_of
not_local (v4 addr) h = elim (Bool-cases (addr.ip.a == 192)) [
  | inl p ↦ elim (Bool-cases (addr.netmask.d == 0)) [
    | inl q ↦ absurd (h (ground arith))
    | inr q ↦ (ground arith, ground arith)
  ]
  | inr p ↦ (ground arith, ground arith)
]
not_local v6 h = (refl, refl)

is_local :
    (addr : Ifv4Addr)
    → IsLocal (v4 addr)
    → (local_ip_of (v4 addr) ≡ some addr.ip) × (broadcast_of (v4 addr) ≡ addr.broadcast)
unfolding local_ip_of broadcast_of
is_local addr h = (ground arith, ground arith)

All-map {ℓ κ μ} :
    {A : Type ℓ} (P : A → Type κ) (Q : A → Type μ) (xs : List A)
    → ((x : A) → P x → Q x)
    → All P xs
    → All Q xs
All-map P Q [] f h = tt
All-map P Q (x ∷ xs) f h = (f x h.0, All-map P Q xs f h.1)

-- What the search for the local address promises of its answer.
abbrev Finds : List IfAddr → Option Ipv4Addr → Type 0
Finds addrs none = All (λ x. ¬ IsLocal x) addrs
Finds addrs (some ip) =
    (front : List IfAddr) × (addr : Ifv4Addr) × (back : List IfAddr) × (addrs
      ≡ front ++ (v4 addr ∷ back))
    × All (λ x. ¬ IsLocal x) front
    × IsLocal (v4 addr)
    × (addr.ip ≡ ip)

Finds-first :
    (addrs : List IfAddr) (o : Option Ipv4Addr) → first_some local_ip_of addrs ≡ o → Finds addrs o
Finds-first addrs none e = All-map _ _ addrs local_ip_of-none (first_some-none local_ip_of addrs e)
Finds-first addrs (some ip) e =
    let (front, x, back, same, before, at) = first_some-split local_ip_of addrs ip e in
    let (addr, is_v4, local, has_ip) = local_ip_of-some x ip at in
    (
      front,
      addr,
      back,
      same ∙ ap (λ z. front ++ (z ∷ back)) is_v4,
      All-map _ _ front local_ip_of-none before,
      local,
      has_ip,
    )

-- `find_local_ip` gives the address of the first interface that is IPv4, in 192.0.0.0/8 and under a
-- netmask that ends in 0, and fails only if there is none.
find_local_ip-Finds : (addrs : List IfAddr) → Finds addrs (find_local_ip (some addrs))
unfolding find_local_ip Option.bind
find_local_ip-Finds addrs = Finds-first addrs (first_some local_ip_of addrs) refl

module _ (front back : List IfAddr) (addr : Ifv4Addr) (port : ℕ)
    (before : All (λ x. ¬ IsLocal x) front) (local : IsLocal (v4 addr)) where
  abbrev pub host : Option (List IfAddr)
  host = some (front ++ (v4 addr ∷ back))

  pub binds : udp_srv_bind_addr host port ≡ some (record addr.ip { d = 255 }, port)
  unfolding udp_srv_bind_addr find_local_ip Option.bind
  binds = rw (
      first_some-append local_ip_of front (v4 addr) back addr.ip
        (All-map _ _ front (λ x h. (not_local x h).0) before) (is_local addr local).0)

  pub broadcasts : (to : Ipv4Addr) → addr.broadcast ≡ some to → select_broadcast_addr host ≡ some to
  unfolding select_broadcast_addr select_from_ips Option.bind
  broadcasts to e =
      first_some-append broadcast_of front (v4 addr) back to
        (All-map _ _ front (λ x h. (not_local x h).1) before) ((is_local addr local).1 ∙ e)

  -- On a host whose first local interface has the broadcast address `to`: a client on it sends its
  -- ping to the address that the server binds exactly if `to` is the interface's own address with 255
  -- as its last octet.
  pub bind-eq-broadcast_iff :
      (to : Ipv4Addr)
      → addr.broadcast ≡ some to
      → (Option.map (λ b. b.0) (udp_srv_bind_addr host port) ≡ select_broadcast_addr host)
        ↔ (to ≡ record addr.ip { d = 255 })
  bind-eq-broadcast_iff to e = rw (binds, broadcasts to e) (λ same. cc, λ same. ap some (sym same))

  -- Under a netmask shorter than 24 bits, where the broadcast address has another third octet, the
  -- server listens on an address that the client does not send to.
  bind-ne-broadcast :
      (to : Ipv4Addr)
      → addr.broadcast ≡ some to
      → to.c ≢ addr.ip.c
      → Option.map (λ b. b.0) (udp_srv_bind_addr host port) ≢ select_broadcast_addr host
  bind-ne-broadcast to e differs same =
      differs (ap (λ (t : Ipv4Addr). t.c) ((bind-eq-broadcast_iff to e).0 same))
