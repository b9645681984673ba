-- ===== src/Cli.antt =====
-- main.rs: what the subcommand `srv` makes of its arguments. Fetch is the subcommand `fetch`, Main the
-- dispatch. The parsing is the crate `clap`; what it found is a record.
pub mod Started
pub mod Fetch
pub mod Meets
pub mod Main
pub mod EndToEnd
pub mod Secured
pub mod Encrypted
pub mod Tunnel
pub mod TurnedDown
pub mod Consent
pub mod Console
use hubtain.Common.{ℕ, Bool, not, if◌then◌else◌}
use hubtain.Files.{AsyncFileReader}
use hubtain.Server.{
  FileSrvBuilder, HolePuncher, no_hole, igd, ngrok, new, set_udp_port, set_stayalive,
  set_encryption, set_holepuncher,
}

-- The flags of `srv`, by `is_present`.
pub record SrvFlags : Type 0 where
  pub no_encryption : Bool
  pub stayalive : Bool
  pub uses_igd : Bool
  pub uses_ngrok : Bool

unfoldable pub chosen_holepuncher : SrvFlags → HolePuncher
chosen_holepuncher sc = if sc.uses_igd then igd else if sc.uses_ngrok then ngrok else no_hole

abbrev pub udp_port : ℕ
udp_port = 42444

-- The builder, before `build`.
unfoldable pub srv_builder : AsyncFileReader → SrvFlags → FileSrvBuilder
unfolding chosen_holepuncher
srv_builder serv_file sc =
    let encryption = not sc.no_encryption in
    set_holepuncher
      (set_encryption (set_stayalive (set_udp_port (new serv_file) udp_port) sc.stayalive)
        encryption)
      (chosen_holepuncher sc)
