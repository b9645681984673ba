-- ===== src/Cli/Fetch.antt =====
-- main.rs: the subcommand `fetch`, with `DownloadClient::connect` of client.rs.
use hubtain.Common.{
  ◌>>=◌, ℕ, ◌≡◌, refl, sym, ap, ◌∙◌, Bool, true, inl, inr, List, [], ◌∷◌, Option, none, some,
  Occurs, arith,
}
use mathlib.Core.Option
use hubtain.Approval.{codes}
use hubtain.Models.{DataSrvInfo, DiscoveryReply, Bincode, BincodeLaws}
use hubtain.Server.{SocketAddr}
use hubtain.Files.{FilePath}
use hubtain.Cli.{udp_port}
use hubtain.Addresses.{Ipv4Addr}
use hubtain.Client.Ping.{
  Udp, Search, connects_to, search_error, search_panics, ping, find_server_from,
}
use hubtain.Client.{
  End, went_well, failed, Copied, FileCalls, all_well, Downloaded, done, find_server, target_path,
  download_to_file,
}
use hubtain.Client.Discovery.{Replied, Chosen, datagrams, address, find_server-Chosen}

-- What a connection brings: it ends before the info, or with the info, the handshake, where there is one,
-- ends so, and what the copy does.
pub data Session : Type 0 where
  untold : End → Session
  told : DataSrvInfo → (handshake : End) → Copied → Session

-- `DownloadClient::connect`, on how the connection ends: `none` is the timeout, `some none` an error.
unfoldable pub connect : Option (Option Session) → Option Session
connect answer = Option.bind answer (λ stream. stream)

-- What the system and the network give to `fetch`.
pub record FetchEnv : Type 0 where
  pub connect_url : List ℕ → Option (Option Session)
  pub connect_addr : SocketAddr → Option (Option Session)
  pub broadcast_addr : Option Ipv4Addr
  pub udp : Udp
  pub is_dir : FilePath → Bool
  pub join : FilePath → List ℕ → FilePath
  pub file_calls : FilePath → FileCalls

-- An error of the search, or its panic, is `none`.
abbrev pub found : Search → Option SocketAddr
found (connects_to server) = some server
found search_error = none
found search_panics = none

-- How `fetch` ends, and the file that it has made, if it has made one.
pub record Fetched : Type 0 where
  pub ending : End
  pub file : Option (FilePath × List ℕ)

-- The arm returns `Ok`, and the file holds this.
abbrev pub fetched : FilePath → List ℕ → Fetched
fetched path bytes = record { ending = went_well; file = some (path, bytes) }

abbrev pub placed : FilePath → Downloaded → Fetched
placed path d = record { ending = d.ending; file = Option.map (λ bytes. (path, bytes)) d.file }

-- `value_of` of the arguments: the value of an argument by its name.
abbrev pub ArgMatches : Type 0
ArgMatches = List ℕ → Option (List ℕ)

-- The names of the arguments that the subcommand declares.
abbrev pub fetch_args : List (List ℕ)
fetch_args = codes "SERVER_URL" ∷ codes "file" ∷ []

-- An argument that the subcommand does not declare has no value.
abbrev pub IsDeclared : ArgMatches → Type 0
IsDeclared sc = (name : List ℕ) → ¬ Occurs name fetch_args → sc name ≡ none

abbrev pub here : FilePath
here = codes "."

-- `unwrap_or_else`
abbrev pub or_here : Option FilePath → FilePath
or_here none = here
or_here (some path) = path

-- What a connection brings that is enough for a file with this content.
abbrev pub Brings : Session → DataSrvInfo → List ℕ → Type 0
Brings client info content =
    (copied : Copied) × (client ≡ told info went_well copied)
    × (download_to_file went_well all_well info copied ≡ done content)

module _ (code : Bincode DiscoveryReply) where
  -- The server that is named, or the first that replies.
  unfoldable pub fetch_from : FetchEnv → Option (List ℕ) → Option Session
  unfolding connect
  fetch_from env (some server_url) = connect (env.connect_url server_url)
  fetch_from env none = do
    addr ← found (find_server_from code env.broadcast_addr udp_port env.udp (λ server. true))
    connect (env.connect_addr addr)

  -- `download_to_file`: where the file is, and what it holds.
  unfoldable pub fetch_into : FetchEnv → FilePath → Session → Fetched
  fetch_into env file_path (untold e) = record { ending = e; file = none }
  fetch_into env file_path (told info handshake copied) =
      let path = target_path env.is_dir env.join file_path info in
      placed path (download_to_file handshake (env.file_calls path) info copied)

  -- Without a connection there is an error.
  abbrev fetch_with : FetchEnv → FilePath → Option Session → Fetched
  fetch_with env file_path none = record { ending = failed; file = none }
  fetch_with env file_path (some client) = fetch_into env file_path client

  -- The arm of `fetch`.
  unfoldable pub fetch : FetchEnv → ArgMatches → Fetched
  unfolding fetch_from fetch_into
  fetch env sc =
      fetch_with env (or_here (sc (codes "FILE"))) (fetch_from env (sc (codes "SERVER_URL")))

  abbrev first : List ℕ → ℕ
  first [] = 0
  first (c ∷ cs) = c

  pub file_undeclared : ¬ Occurs (codes "FILE") fetch_args
  file_undeclared (inl e) = let q : 70 ≡ 83 = ap first e in omega (arith, q)
  file_undeclared (inr (inl e)) = let q : 70 ≡ 102 = ap first e in omega (arith, q)
  file_undeclared (inr (inr o)) = o

  -- The first that replied.
  first_chosen :
      (laws : BincodeLaws code) (r : Replied code) (rs : List (Replied code))
      → find_server code (λ server. true) (datagrams code laws (r ∷ rs))
        ≡ some (address code laws r)
  first_chosen laws r rs =
      picks (find_server code (λ server. true) (datagrams code laws (r ∷ rs)))
        (find_server-Chosen code laws (λ server. true) (r ∷ rs))
    where
      head : Replied code → List (Replied code) → Replied code
      head d [] = d
      head d (y ∷ ys) = y

      picks :
          (o : Option SocketAddr)
          → Chosen code laws (λ server. true) (r ∷ rs) o
          → o ≡ some (address code laws r)
      picks none (off, rest) = absurd (cc)
      picks (some server) ([], x, back, split, before, on, is) =
          ap some (sym is ∙ ap (address code laws) (ap (head r) (sym split)))
      picks (some server) (z ∷ front, x, back, split, (off, rest), on, is) = absurd (cc)

  -- A ping that goes out, and that servers reply to.
  pub find_server_from-first :
      (laws : BincodeLaws code) (sock : Udp) (to : Ipv4Addr) (port : ℕ) (r : Replied code)
      (rs : List (Replied code))
      → sock.bind ≡ true
      → sock.set_broadcast ≡ true
      → sock.send_to (to, port) ≡ true
      → sock.replies (to, port) ping ≡ datagrams code laws (r ∷ rs)
      → find_server_from code (some to) port sock (λ server. true)
        ≡ connects_to (address code laws r)
  unfolding find_server_from
  find_server_from-first laws sock to port r rs opens broad goes replies =
      rw (opens, broad, goes, replies, first_chosen laws r rs)

  fetch_into-Brings :
      (env : FetchEnv) (client : Session) (info : DataSrvInfo) (content : List ℕ)
      → env.file_calls (target_path env.is_dir env.join here info) ≡ all_well
      → Brings client info content
      → fetch_into env here client ≡ fetched (target_path env.is_dir env.join here info) content
  unfolding fetch_into
  fetch_into-Brings env client info content makes (copied, is, whole) =
      let path = target_path env.is_dir env.join here info in
      ap (fetch_into env here) is
      ∙ ap (λ calls. placed path (download_to_file went_well calls info copied)) makes
      ∙ ap (placed path) whole

  -- `fetch` once it has a connection.
  pub fetch_connected :
      (env : FetchEnv) (sc : ArgMatches) (client : Session) (info : DataSrvInfo) (content : List ℕ)
      → IsDeclared sc
      → fetch_from env (sc (codes "SERVER_URL")) ≡ some client
      → env.file_calls (target_path env.is_dir env.join here info) ≡ all_well
      → Brings client info content
      → fetch env sc ≡ fetched (target_path env.is_dir env.join here info) content
  unfolding fetch
  fetch_connected env sc client info content declared connects makes brings =
      (λ i. fetch_with env (or_here (declared (codes "FILE") file_undeclared i)) (connects i))
      ∙ fetch_into-Brings env client info content makes brings

  -- The connection of `fetch` once its search has found a server.
  pub fetch_from-found :
      (env : FetchEnv) (sc : ArgMatches) (addr : SocketAddr) (client : Session)
      → sc (codes "SERVER_URL") ≡ none
      → find_server_from code env.broadcast_addr udp_port env.udp (λ server. true)
        ≡ connects_to addr
      → env.connect_addr addr ≡ some (some client)
      → fetch_from env (sc (codes "SERVER_URL")) ≡ some client
  unfolding fetch_from connect Option.bind
  fetch_from-found env sc addr client no_url chosen connects = rw (no_url, chosen, connects) refl

  -- The connection of `fetch` to the server that is named.
  pub fetch_from-named :
      (env : FetchEnv) (sc : ArgMatches) (url : List ℕ)
      → sc (codes "SERVER_URL") ≡ some url
      → fetch_from env (sc (codes "SERVER_URL")) ≡ connect (env.connect_url url)
  unfolding fetch_from
  fetch_from-named env sc url given = rw given refl
