-- ===== src/Tests/Transfer.antt =====
-- A whole file on its way, and the subcommand `fetch`.
use hubtain.Common.{
  ℕ, ◌≡◌, refl, true, false, Bool, Bool-cases, ◌==◌, ==_iff, if◌then◌else◌, List, [], ◌∷◌, ◌++◌,
  some, none, inl, inr,
}
use hubtain.Approval.{codes}
use hubtain.Models.{DataSrvInfo}
use hubtain.Client.{went_well, failed, all_well}
use hubtain.Client.Discovery.{datagrams, address}
use hubtain.Cli.Fetch.{Session, told, FetchEnv, ArgMatches}
use hubtain.Tests.Server
use hubtain.Tests.Client.{reply_code, reply_laws, replied}

abbrev content : List ℕ
content = 1 ∷ 2 ∷ []

abbrev info : DataSrvInfo
info = record { tcp_port = 80; data_length = 2; encrypted = true; data_name = 97 ∷ [] }

abbrev session : Session
session = told info went_well (record { chunks = content ∷ []; ends = failed })

abbrev network : FetchEnv
network = record {
  connect_url = λ url. none;
  connect_addr = λ addr. some (some session);
  broadcast_addr = some (Server.address 1 255);
  udp = record {
    bind = true;
    set_broadcast = true;
    send_to = λ at. true;
    replies = λ at bytes. datagrams reply_code reply_laws (replied 6 ∷ replied 7 ∷ []);
  };
  is_dir = λ path. true;
  join = λ path name. path ++ (b'/' ∷ name);
  file_calls = λ path. all_well;
}

abbrev pub same : List ℕ → List ℕ → Bool
same [] [] = true
same [] (d ∷ ds) = false
same (c ∷ cs) [] = false
same (c ∷ cs) (d ∷ ds) = if c == d then same cs ds else false

pub same→eq : (cs ds : List ℕ) → same cs ds ≡ true → cs ≡ ds
same→eq [] [] h = refl
same→eq [] (d ∷ ds) h = cc
same→eq (c ∷ cs) [] h = cc
same→eq (c ∷ cs) (d ∷ ds) h = elim (Bool-cases (c == d)) [
  | inl e ↦ λ i. (==_iff c d).0 e i ∷ same→eq cs ds (rw e at h) i
  | inr e ↦ absurd (let p : ◌≡◌ {A = Bool} false true = rw e at h in cc)
]

-- `-o` is given, and no server.
abbrev args : ArgMatches
args name = if same name (codes "file") then some (codes "there") else none
