-- ===== src/Config.antt =====
-- src/config/mod.rs and src/config/route.rs: the settings and their validation. A path is its
-- text. Reading the file and the TOML parser are parameters, as are the probes of directories and
-- environment that choose the default paths.
mod Tests
pub mod Addr
pub mod Validate
pub mod Upstreams
use propylea.Prelude.{
  Bool, List, Option, Result, Text, [], codes, ends_with, err, false, if◌then◌else◌, is_empty,
  map_err, none, ok, some, to_decimal, true, ℕ, ◌++◌, ◌+◌, ◌>>=◌, ◌>>◌, ◌∷◌,
}
use propylea.Config.Addr.{SocketAddr, addr_mem, v4}

pub data ConfigError : Type 0 where
  io : Text → Text → ConfigError
  toml : Text → ConfigError
  validation : Text → ConfigError

pub record ServerConfig : Type 0 where
  pub http_bind : SocketAddr
  pub https_bind : SocketAddr
  pub acme_webroot : Option Text
  pub worker_threads : Option ℕ

unfoldable pub default_server : ServerConfig
default_server = record {
  http_bind = v4 0 0 0 0 80;
  https_bind = v4 0 0 0 0 443;
  acme_webroot = some (codes "/var/www/letsencrypt");
  worker_threads = none;
}

pub record SecurityConfig : Type 0 where
  pub enable_defense : Bool
  pub abuseipdb_api_key : Option Text
  pub webhook_url : Option Text
  pub syslog_cef : Bool
  pub server_banner : Text
  pub hsts : Bool
  pub frame_options : Text
  pub quarantine_db : Option Text
  pub control_socket : Option Text
  pub persist_quarantine : Bool
  pub trusted_cidrs : List Text

unfoldable pub default_security : SecurityConfig
default_security = record {
  enable_defense = true;
  abuseipdb_api_key = none;
  webhook_url = none;
  syslog_cef = false;
  server_banner = codes "Propylea-Edge-Gateway/1.0";
  hsts = true;
  frame_options = codes "DENY";
  quarantine_db = none;
  control_socket = none;
  persist_quarantine = true;
  trusted_cidrs = [];
}

-- `Path::join` with a relative path.
abbrev pub join_path : Text → Text → Text
join_path base rel =
    if is_empty base
    then rel
    else if ends_with base (codes "/")
    then base ++ rel
    else base ++ (b'/' ∷ rel)

abbrev home_db : Option Text → Text
home_db none = codes "./data/quarantine.db"
home_db (some home) = join_path home (codes ".local/share/propylea/quarantine.db")

-- The flag is whether `/var/lib/propylea` can be made; `home` is the variable HOME.
unfoldable pub resolved_quarantine_db : SecurityConfig → Bool → Option Text → Text
resolved_quarantine_db s var_lib home = elim s.quarantine_db [
  | some p ↦ p
  | none ↦ if var_lib then codes "/var/lib/propylea/quarantine.db" else home_db home
]

unfoldable pub resolved_control_socket : SecurityConfig → Bool → Text
resolved_control_socket s run_dir = elim s.control_socket [
  | some p ↦ p
  | none ↦
      if run_dir then codes "/run/propylea/control.sock" else codes "/tmp/propylea_control.sock"
]

pub record MaintenanceSettings : Type 0 where
  pub hygiene_interval_secs : ℕ
  pub max_telemetry_records : ℕ
  pub memory_vacuum : Bool

unfoldable pub default_maintenance : MaintenanceSettings
default_maintenance = record {
  hygiene_interval_secs = 300;
  max_telemetry_records = 10_000;
  memory_vacuum = true;
}

pub record RouteConfig : Type 0 where
  pub domains : List Text
  pub upstream : Option SocketAddr
  pub upstreams : Option (List SocketAddr)
  pub cert : Text
  pub key : Text
  pub websocket : Bool
  pub hedged_racing : Option Bool

pub record PropyleaConfig : Type 0 where
  pub server : ServerConfig
  pub security : SecurityConfig
  pub maintenance : MaintenanceSettings
  pub routes : List RouteConfig

abbrev pub opt_list {ℓ} : {A : Type ℓ} → Option A → List A
opt_list none = []
opt_list (some a) = a ∷ []

abbrev pub list_or_nil {ℓ} : {A : Type ℓ} → Option (List A) → List A
list_or_nil none = []
list_or_nil (some list) = list

-- `for u in ups { if !list.contains(u) { list.push(*u) } }`
unfoldable pub push_new : List SocketAddr → List SocketAddr → List SocketAddr
push_new list [] = list
push_new list (u ∷ ups) = push_new (if addr_mem u list then list else list ++ (u ∷ [])) ups

unfoldable pub resolved_upstreams : RouteConfig → Result (List SocketAddr) ConfigError
unfolding push_new
resolved_upstreams r =
    let list = push_new (opt_list r.upstream) (list_or_nil r.upstreams) in
    if is_empty list
    then err (validation (codes "Route must specify either 'upstream' or 'upstreams'"))
    else ok list

abbrev pub first_or : SocketAddr → List SocketAddr → SocketAddr
first_or d [] = d
first_or d (a ∷ rest) = a

abbrev pub fallback_upstream : SocketAddr
fallback_upstream = v4 127 0 0 1 8080

unfoldable pub primary_upstream : RouteConfig → SocketAddr
unfolding resolved_upstreams
primary_upstream r = elim (resolved_upstreams r) [
  | ok list ↦ first_or fallback_upstream list
  | err e ↦ fallback_upstream
]

unfoldable pub single : List Text → SocketAddr → Text → Text → Bool → RouteConfig
single domains upstream cert key websocket = record {
  domains = domains;
  upstream = some upstream;
  upstreams = none;
  cert = cert;
  key = key;
  websocket = websocket;
  hedged_racing = none;
}

-- The `Display` of an error, as `thiserror` writes it.
unfoldable pub display_error : ConfigError → Text
display_error (io path e) = codes "I/O error reading config file '" ++ (path ++ (codes "': " ++ e))
display_error (toml e) = codes "TOML syntax/deserialization error: " ++ e
display_error (validation m) = codes "Validation error: " ++ m

abbrev route_name : ℕ → Text
route_name i = codes "Route[" ++ (to_decimal i ++ codes "]")

unfoldable pub validate_route : ℕ → RouteConfig → Result (Unit {0}) ConfigError
unfolding resolved_upstreams display_error
validate_route i r =
    if is_empty r.domains
    then err (validation (route_name i ++ codes " has no domains configured"))
    else (do
      list ←
          map_err
            (λ e.
              validation
                (route_name i ++ (codes " invalid upstream configuration: " ++ display_error e)))
            (resolved_upstreams r)
      ok tt)

-- The loop over `routes.iter().enumerate()`.
unfoldable pub validate_routes : ℕ → List RouteConfig → Result (Unit {0}) ConfigError
unfolding validate_route
validate_routes i [] = ok tt
validate_routes i (r ∷ rs) = do validate_route i r; validate_routes (i + 1) rs

unfoldable pub validate : PropyleaConfig → Result (Unit {0}) ConfigError
unfolding validate_routes
validate c =
    if is_empty c.routes
    then err (validation (codes "At least one [[routes]] entry must be defined"))
    else validate_routes 0 c.routes

-- What the build takes from the `toml` crate and the file system.
pub record Loader : Type 0 where
  pub parse_toml : Text → Result PropyleaConfig Text
  pub read_to_string : Text → Result Text Text

module _ (l : Loader) where
  unfoldable pub from_str : Text → Result PropyleaConfig ConfigError
  unfolding validate
  from_str s = elim (l.parse_toml s) [
    | ok config ↦ (do validate config; ok config)
    | err e ↦ err (toml e)
  ]

  unfoldable pub load_from_file : Text → Result PropyleaConfig ConfigError
  unfolding from_str
  load_from_file path = elim (l.read_to_string path) [
    | ok content ↦ from_str content
    | err e ↦ err (io path e)
  ]
