-- ===== src/Startup.antt =====
-- src/cli.rs: the dispatch of the program's commands, the check of a configuration and the start of
-- the daemon up to its listeners. What is printed is left out; an error says where it arose.
pub mod Checked
mod Tests
use propylea.Config.{ConfigError, Loader, PropyleaConfig, RouteConfig, load_from_file}
use propylea.Tls.{
  TlsAcceptor, TlsApi, TlsError, build_sni_tls_acceptor, load_certs, load_private_key,
}
use propylea.Maintenance.{GovernorMetrics, MaintenanceConfig, initial_metrics, run_hygiene_pass}
use propylea.Telemetry.{TelemetryRingBuffer, new}
use propylea.Telemetry
use propylea.Quarantine.Commands.{QuarantineCommands}
use propylea.Prelude.{
  Bool, List, Option, Result, Text, [], if◌then◌else◌, map_err, none, ok, some, ℕ, ◌+◌, ◌>>=◌, ◌>>◌,
  ◌∷◌,
}

pub data Commands : Type 0 where
  serve : (config : Text) → Commands
  check : (config : Text) (syntax_only : Bool) → Commands
  quarantine : QuarantineCommands → Commands

pub record Cli : Type 0 where
  pub command : Option Commands
  pub config : Text

pub data CheckError : Type 0 where
  bad_config : ConfigError → CheckError
  cert_error key_error : (index : ℕ) (domains : List Text) → TlsError → CheckError

-- Why the process exits with status 1.
pub data Fatal : Type 0 where
  fatal_config : ConfigError → Fatal
  fatal_tls : TlsError → Fatal

abbrev pub maintenance_config : PropyleaConfig → MaintenanceConfig
maintenance_config config = record {
  interval_secs = config.maintenance.hygiene_interval_secs;
  max_retained_records = config.maintenance.max_telemetry_records;
  memory_vacuum = config.maintenance.memory_vacuum;
}

module _ (l : Loader) (api : TlsApi) where
  unfoldable pub check_route : ℕ → RouteConfig → Result (Unit {0}) CheckError
  unfolding load_certs load_private_key
  check_route i route = do
    certs ← map_err (cert_error i route.domains) (load_certs api route.cert)
    key ← map_err (key_error i route.domains) (load_private_key api route.key)
    ok tt

  unfoldable pub check_routes : Bool → ℕ → List RouteConfig → Result (Unit {0}) CheckError
  unfolding check_route
  check_routes syntax_only i [] = ok tt
  check_routes syntax_only i (route ∷ routes) =
      (if syntax_only then ok tt else check_route i route)
      >> check_routes syntax_only (i + 1) routes

  unfoldable pub run_check : Text → Bool → Result (Unit {0}) CheckError
  unfolding load_from_file check_routes
  run_check path syntax_only = do
    config ← map_err bad_config (load_from_file l path)
    check_routes syntax_only 0 config.routes

  -- What the listeners and the worker are started with.
  pub record Running : Type 0 where
    pub proxy_config : PropyleaConfig
    pub tls_acceptor : TlsAcceptor api
    pub maintenance_cfg : MaintenanceConfig
    pub governor : GovernorMetrics
    pub telemetry : TelemetryRingBuffer

  abbrev pub started : PropyleaConfig → TlsAcceptor api → Running
  started config acceptor = record {
    proxy_config = config;
    tls_acceptor = acceptor;
    maintenance_cfg = maintenance_config config;
    governor = run_hygiene_pass initial_metrics;
    telemetry = Telemetry.new config.maintenance.max_telemetry_records;
  }

  unfoldable pub run_serve : Text → Result Running Fatal
  unfolding load_from_file build_sni_tls_acceptor run_hygiene_pass Telemetry.new
  run_serve path = do
    config ← map_err fatal_config (load_from_file l path)
    acceptor ← map_err fatal_tls (build_sni_tls_acceptor api config.routes)
    ok (started config acceptor)

  -- After the signal to stop.
  unfoldable pub shut_down : Running → Running
  unfolding run_hygiene_pass
  shut_down r = record r { governor = run_hygiene_pass r.governor }

  -- What the program does: the quarantine's commands are those of another module.
  pub data Action : Type 0 where
    serves : Result Running Fatal → Action
    checks : Result (Unit {0}) CheckError → Action
    manages : (config : Text) → QuarantineCommands → Action

  unfoldable pub execute_command : Text → Option Commands → Action
  unfolding run_serve run_check
  execute_command top (some (serve config)) = serves (run_serve config)
  execute_command top (some (check config syntax_only)) = checks (run_check config syntax_only)
  execute_command top (some (quarantine cmd)) = manages top cmd
  execute_command top none = serves (run_serve top)

  unfoldable pub execute_cli : Cli → Action
  unfolding execute_command
  execute_cli cli = execute_command cli.config cli.command
