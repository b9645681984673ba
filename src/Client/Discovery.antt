-- ===== src/Client/Discovery.antt =====
-- Which server the client connects to.
use hubtain.Common.{
  ℕ, ◌≤◌, ◌≡◌, refl, ap, Bool, true, false, List, [], ◌∷◌, ◌++◌, Option, none, some, map, arith,
  length, drop, replicate, All, take_all, inl, inr, Bool-cases, ap,
}
use mathlib.Core.Option
use hubtain.Models.{DiscoveryReply, Bincode, BincodeLaws}
use hubtain.Server.{SocketAddr}
use hubtain.Client.{
  Datagrams, received, reply_buffer, read_replies, server_info, set_port, collect, find,
  find_server,
}

-- A server that replied: what it sent, as the bytes of its datagram, and from where.
pub record Replied (code : Bincode DiscoveryReply) : Type 0 where
  pub reply : DiscoveryReply
  pub payload : List ℕ
  pub peer : SocketAddr
  pub encodes : code.serialize reply ≡ some payload
  pub fits : length payload ≤ reply_buffer

module _ (code : Bincode DiscoveryReply) (laws : BincodeLaws code) where
  abbrev pub datagrams : List (Replied code) → Datagrams
  datagrams = map (λ r. some (r.payload, r.peer))

  -- The address on which a server said that it accepts downloads.
  abbrev pub address : Replied code → SocketAddr
  address r = set_port r.peer r.reply.tcp_port

  -- A datagram that fits the buffer decodes, whatever stood in the buffer before.
  decodes :
      (r : Replied code) (buf : List ℕ)
      → server_info code (received buf r.payload, r.peer) ≡ some (address r)
  decodes r buf = rw (
    take_all reply_buffer r.payload r.fits,
    laws.deserialize-serialize r.reply r.payload (drop (length r.payload) buf) r.encodes,
  )

  collect_cons :
      (x : List ℕ × SocketAddr) (a : SocketAddr) (o : Option (List (List ℕ × SocketAddr)))
      (found : List SocketAddr)
      → server_info code x ≡ some a
      → Option.bind o (collect code) ≡ some found
      → Option.bind (Option.map (λ rest. x ∷ rest) o) (collect code) ≡ some (a ∷ found)
  unfolding collect Option.bind
  collect_cons x a none found e h = absurd (ground arith)
  collect_cons x a (some rest) found e h = rw (e, h)

  replies_collect :
      (rs : List (Replied code)) (buf : List ℕ)
      → Option.bind (read_replies buf (datagrams rs)) (collect code) ≡ some (map address rs)
  unfolding read_replies collect Option.bind
  replies_collect [] buf = refl
  replies_collect (r ∷ rs) buf =
      let now : List ℕ = received buf r.payload in
      collect_cons (now, r.peer) (address r) (read_replies now (datagrams rs)) (map address rs)
        (decodes r buf) (replies_collect rs now)

  -- What a client promises of the server that it connects to.
  abbrev pub Chosen : (SocketAddr → Bool) → List (Replied code) → Option SocketAddr → Type 0
  Chosen strategy rs none = All (λ r. strategy (address r) ≡ false) rs
  Chosen strategy rs (some server) =
      (front : List (Replied code)) × (r : Replied code) × (back : List (Replied code)) × (rs
        ≡ front ++ (r ∷ back))
      × All (λ z. strategy (address z) ≡ false) front
      × (strategy (address r) ≡ true)
      × (address r ≡ server)

  find-Chosen :
      (strategy : SocketAddr → Bool) (rs : List (Replied code))
      → Chosen strategy rs (find code strategy (map address rs))
  unfolding find
  find-Chosen strategy [] = tt
  find-Chosen strategy (r ∷ rs) = elim (Bool-cases (strategy (address r))) [
    | inl yes_r ↦ rw yes_r ([], r, rs, refl, tt, yes_r, refl)
    | inr no_r ↦
        rw no_r (later no_r (find code strategy (map address rs)) (find-Chosen strategy rs))
  ]
    where
      later :
          strategy (address r) ≡ false
          → (o : Option SocketAddr) → Chosen strategy rs o
          → Chosen strategy (r ∷ rs) o
      later no_r none h = (no_r, h)
      later no_r (some server) (front, x, back, same, before, at, is) =
          (r ∷ front, x, back, ap (◌∷◌ r) same, (no_r, before), at, is)

  bind_assoc :
      (o : Option (List (List ℕ × SocketAddr))) (strategy : SocketAddr → Bool)
      (found : List SocketAddr)
      → Option.bind o (collect code) ≡ some found
      → Option.bind o (λ replies. Option.bind (collect code replies) (find code strategy))
        ≡ find code strategy found
  unfolding Option.bind
  bind_assoc none strategy found h = absurd (ground arith)
  bind_assoc (some replies) strategy found h = rw h

  -- Where every datagram is the reply of a server, encoded and no longer than the buffer, the client
  -- connects to the first, in the order of arrival, that the strategy takes, at the TCP port that it
  -- announces, and fails only if the strategy takes none; the longer datagrams before a shorter one
  -- do no harm.
  pub find_server-Chosen :
      (strategy : SocketAddr → Bool) (rs : List (Replied code))
      → Chosen strategy rs (find_server code strategy (datagrams rs))
  unfolding find_server
  find_server-Chosen strategy rs =
      rw
        (bind_assoc (read_replies (replicate reply_buffer 0) (datagrams rs)) strategy
          (map address rs) (replies_collect rs (replicate reply_buffer 0)))
        (find-Chosen strategy rs)
