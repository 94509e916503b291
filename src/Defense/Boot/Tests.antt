-- ===== src/Defense/Boot/Tests.antt =====
-- A perimeter that is built from a test database, and an instance of what is proved of it.
use propylea.Config.{SecurityConfig}
use propylea.Quarantine.Tests.{list_engine, one_ban, text_net}
use propylea.Defense.Shield.{ShieldApi}
use propylea.Defense.Boot.{build_edge_defense, trusted_nets}
use propylea.Defense.Boot.Restored.{IsRestored, build-IsRestored}
use propylea.Prelude.{[], codes, false, none, ok, refl, true, ℕ, ◌+◌, ◌∷◌, ◌≡◌}

abbrev quiet_shield : ShieldApi text_net
quiet_shield = record {
  State = ℕ;
  addr_text = λ a. a;
  is_loopback = λ a. false;
  inspect = λ path query. none;
  normalize_path = λ path. path;
  derive_quarantine_cidr = λ s. none;
  record_and_check = λ s now n. n + 1;
  harvest_canary_probe = λ ua m now n. n;
  record_anomalous_uri = λ path ip now n. n + 1;
  evaluate_perimeter = λ req n. (none, n);
  bot_perimeter = λ ua path n. (none, n);
}

abbrev trusting : SecurityConfig
trusting = record {
  enable_defense = true;
  abuseipdb_api_key = none;
  webhook_url = none;
  syslog_cef = false;
  server_banner = codes "edge";
  hsts = true;
  frame_options = codes "DENY";
  quarantine_db = none;
  control_socket = none;
  persist_quarantine = true;
  trusted_cidrs = codes "192.0.2.1" ∷ codes "operator" ∷ codes "198.51.100.7/32" ∷ [];
}

operator_passed_over :
    trusted_nets text_net quiet_shield trusting.trusted_cidrs
    ≡ codes "192.0.2.1/32" ∷ codes "198.51.100.7/32" ∷ []
unfolding trusted_nets
operator_passed_over = refl

build-IsRestored_example :
    IsRestored text_net quiet_shield list_engine trusting 2000 one_ban []
      (build_edge_defense text_net quiet_shield list_engine trusting [] 2000 (ok one_ban))
build-IsRestored_example =
    build-IsRestored text_net quiet_shield list_engine trusting [] 2000 one_ban refl refl
