-- ===== src/Config/Tests.antt =====
-- A configuration, and instances of what is proved of the validation.
use propylea.Prelude.{All, [], codes, false, none, ok, refl, some, true, ◌↔◌, ◌∷◌, ◌≡◌, ◌≢◌}
use propylea.Config.{
  Loader, PropyleaConfig, RouteConfig, load_from_file, resolved_upstreams, validate,
}
use propylea.Config.Addr.{SocketAddr, addr_mem, v4}
use propylea.Config.Validate.{IsRoute, validate_iff}

abbrev backend : SocketAddr
backend = v4 10 0 0 5 8080

abbrev one_route : RouteConfig
one_route = record {
  domains = codes "example.com" ∷ [];
  upstream = some backend;
  upstreams = some (backend ∷ v4 10 0 0 6 8080 ∷ []);
  cert = codes "cert.pem";
  key = codes "key.pem";
  websocket = false;
  hedged_racing = none;
}

abbrev one_config : PropyleaConfig
one_config = record {
  server = record {
    http_bind = v4 0 0 0 0 80;
    https_bind = v4 0 0 0 0 443;
    acme_webroot = none;
    worker_threads = none;
  };
  security = record {
    enable_defense = true;
    abuseipdb_api_key = none;
    webhook_url = none;
    syslog_cef = false;
    server_banner = codes "edge";
    hsts = true;
    frame_options = codes "DENY";
    quarantine_db = none;
    control_socket = none;
    persist_quarantine = true;
    trusted_cidrs = [];
  };
  maintenance = record {
    hygiene_interval_secs = 300;
    max_telemetry_records = 100;
    memory_vacuum = true;
  };
  routes = one_route ∷ [];
}

two_upstreams : resolved_upstreams one_route ≡ ok (backend ∷ v4 10 0 0 6 8080 ∷ [])
unfolding resolved_upstreams addr_mem
two_upstreams = refl

validate_iff_example :
    (validate one_config ≡ ok tt) ↔ ((one_config.routes ≢ []) × All IsRoute one_config.routes)
validate_iff_example = validate_iff one_config

abbrev fixed_loader : Loader
fixed_loader = record { parse_toml = λ s. ok one_config; read_to_string = λ p. ok (codes "toml") }

loaded : load_from_file fixed_loader (codes "propylea.toml") ≡ ok one_config
unfolding load_from_file resolved_upstreams addr_mem
loaded = refl
