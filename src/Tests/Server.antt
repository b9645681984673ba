-- ===== src/Tests/Server.antt =====
-- The server's builder and the choice of its address.
use hubtain.Common.{ℕ, ◌≡◌, ◌↔◌, ◌⊎◌, refl, true, false, List, [], ◌∷◌, some}
use hubtain.Approval.{interactive, codes, console_submit}
use hubtain.Approval.Answers.{Affirms, console_submit_iff}
use hubtain.Addresses.{
  Ipv4Addr, Ifv4Addr, v4, v6, find_local_ip, udp_srv_bind_addr, local_ip_of, first_some,
  select_broadcast_addr,
}
use hubtain.Addresses.Choice.{bind-eq-broadcast_iff}
use hubtain.Files.{AsyncFileReader}
use hubtain.Server.{FileSrv, BuildEnv, v4_addr, no_hole, new, build, set_stayalive, set_encryption}
use hubtain.Server.Builder.{Setting, stayalive, encryption, configure, apply, build-interactive}
use mathlib.Core.Option

abbrev pub address : ℕ → ℕ → Ipv4Addr
address c d = record { a = 192; b = 168; c = c; d = d }

abbrev pub home : Ifv4Addr
home = record {
  ip = address 1 20;
  netmask = record { a = 255; b = 255; c = 255; d = 0 };
  broadcast = some (address 1 255);
}

abbrev pub reader : AsyncFileReader
reader = record {
  file = record { bytes = 1 ∷ 2 ∷ []; position = 0 };
  file_size = 2;
  orig_path = 65 ∷ [];
}

abbrev pub env : BuildEnv
env = record {
  tcp_bind = λ addr. some (v4_addr (address 0 0) 5000);
  ifaces = some (v6 ∷ v4 home ∷ []);
  udp_bind = λ addr. some addr;
  random_word = 77 ∷ [];
  is_file = λ path. true;
  file_name = λ path. some path;
}

abbrev pub settings : List Setting
settings = encryption true ∷ stayalive true ∷ []

abbrev pub srv : FileSrv
srv = record {
  stay_alive = true;
  udp_sock = (address 1 255, 0);
  tcp_sock = v4_addr (address 0 0) 5000;
  content = reader;
  data_length = 2;
  name = 77 ∷ [];
  encrypted = true;
  client_approval_strategy = interactive;
  file_name = 65 ∷ [];
  holepuncher = no_hole;
}

pub builds : build env (configure (new reader) settings) ≡ some srv
unfolding build new configure apply set_stayalive set_encryption udp_srv_bind_addr find_local_ip
    local_ip_of first_some Option.bind
builds = refl

build-interactive_example : srv.client_approval_strategy ≡ interactive
build-interactive_example = build-interactive env reader settings srv builds refl

bind-eq-broadcast_iff_example :
    (Option.map (λ b. b.0) (udp_srv_bind_addr (some (v6 ∷ v4 home ∷ [])) 42444)
      ≡ select_broadcast_addr (some (v6 ∷ v4 home ∷ [])))
    ↔ (address 1 255 ≡ address 1 255)
bind-eq-broadcast_iff_example =
    bind-eq-broadcast_iff (v6 ∷ []) [] home 42444 (λ h. h, tt) (refl, refl) (address 1 255) refl

console_submit_iff_example :
    ((console_submit (some (codes " Yes \n")) ≡ some true) ↔ Affirms (codes " Yes \n"))
    × ((console_submit (some (codes " Yes \n")) ≡ some true)
        ⊎ (console_submit (some (codes " Yes \n")) ≡ some false))
console_submit_iff_example = console_submit_iff (codes " Yes \n")
