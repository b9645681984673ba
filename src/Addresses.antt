-- ===== src/Addresses.antt =====
-- broadcast_addr_picker.rs, and the bind address of server/mod.rs (`udp_srv_bind_addr` on Linux): which
-- interface the two sides use. What `get_if_addrs` finds is an argument.
pub mod Choice
use hubtain.Common.{ℕ, ◌==◌, if◌then◌else◌, Bool, not, List, [], ◌∷◌, Option, none, some}
use mathlib.Core.Option

pub record Ipv4Addr : Type 0 where
  pub a : ℕ
  pub b : ℕ
  pub c : ℕ
  pub d : ℕ

pub record Ifv4Addr : Type 0 where
  pub ip : Ipv4Addr
  pub netmask : Ipv4Addr
  pub broadcast : Option Ipv4Addr

pub data IfAddr : Type 0 where
  v4 : Ifv4Addr → IfAddr
  v6 : IfAddr

-- `Ifv4Addr::is_loopback`: the address is in 127.0.0.0/8.
abbrev pub is_loopback : Ifv4Addr → Bool
is_loopback addr = addr.ip.a == 127

-- The closure of `select_from_ips`.
pub broadcast_of : IfAddr → Option Ipv4Addr
broadcast_of (v4 addr) =
    if is_loopback addr
    then none
    else if not (addr.netmask.d == 0)
    then none
    else if not (addr.ip.a == 192)
    then none
    else addr.broadcast
broadcast_of v6 = none

-- The closure of `find_local_ip`.
unfoldable pub local_ip_of : IfAddr → Option Ipv4Addr
local_ip_of (v4 addr) =
    if is_loopback addr
    then none
    else if not (addr.netmask.d == 0)
    then none
    else if not (addr.ip.a == 192)
    then none
    else some addr.ip
local_ip_of v6 = none

-- `iter.filter_map(f).next()`
unfoldable pub first_some {ℓ κ} : {A : Type ℓ} {B : Type κ} → (A → Option B) → List A → Option B
first_some f [] = none
first_some f (x ∷ xs) = let rest = first_some f xs in elim (f x) [ none ↦ rest | some y ↦ some y ]

-- `ok_or_else(|| anyhow!(…))` on a result of which only success and failure matter.
pub select_from_ips : List IfAddr → Option Ipv4Addr
select_from_ips addrs = first_some broadcast_of addrs

-- `get_if_addrs()?` gives `none` where it fails.
pub select_broadcast_addr : Option (List IfAddr) → Option Ipv4Addr
select_broadcast_addr ifaces = Option.bind ifaces select_from_ips

unfoldable pub find_local_ip : Option (List IfAddr) → Option Ipv4Addr
find_local_ip ifaces = Option.bind ifaces (first_some local_ip_of)

-- The address and port that the UDP socket of the server is bound to.
unfoldable pub udp_srv_bind_addr : Option (List IfAddr) → ℕ → Option (Ipv4Addr × ℕ)
udp_srv_bind_addr ifaces port_num =
    Option.map (λ local_ip. (record local_ip { d = 255 }, port_num)) (find_local_ip ifaces)
