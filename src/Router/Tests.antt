-- ===== src/Router/Tests.antt =====
-- Instances of what is proved of the router.
use mathlib.Core.List.{Mem}
use propylea.Prelude.{List, Text, [], codes, false, none, ok, refl, some, true, ℕ, ◌∷◌, ◌≡◌}
use propylea.Config.Addr.{v4}
use propylea.Config.{PropyleaConfig, RouteConfig, validate}
use propylea.Router.{clean_host, new, resolve, target_of}
use propylea.Router.Resolve.{chosen_route, hit, resolve-chosen_route}
use propylea.Router.Hosts.{IsConfigured, resolve_of_valid}

abbrev route_to : Text → ℕ → RouteConfig
route_to domain port = record {
  domains = domain ∷ [];
  upstream = some (v4 127 0 0 1 port);
  upstreams = none;
  cert = codes "cert.pem";
  key = codes "key.pem";
  websocket = false;
  hedged_racing = none;
}

abbrev two_routes : List RouteConfig
two_routes = route_to (codes "a.example") 8001 ∷ route_to (codes "B.example") 8002 ∷ []

abbrev pub two_config : PropyleaConfig
two_config = record {
  server = record {
    http_bind = v4 0 0 0 0 80;
    https_bind = v4 0 0 0 0 443;
    acme_webroot = none;
    worker_threads = none;
  };
  security = record {
    enable_defense = true;
    abuseipdb_api_key = none;
    webhook_url = none;
    syslog_cef = false;
    server_banner = codes "edge";
    hsts = true;
    frame_options = codes "DENY";
    quarantine_db = none;
    control_socket = none;
    persist_quarantine = true;
    trusted_cidrs = [];
  };
  maintenance = record {
    hygiene_interval_secs = 300;
    max_telemetry_records = 100;
    memory_vacuum = true;
  };
  routes = two_routes;
}

resolve-chosen_route_example :
    resolve (new two_routes) (codes "b.EXAMPLE:443")
    ≡ hit (chosen_route (clean_host (codes "b.EXAMPLE:443")) two_routes) none
resolve-chosen_route_example = resolve-chosen_route two_routes (codes "b.EXAMPLE:443")

two_config_valid : validate two_config ≡ ok tt
unfolding validate
two_config_valid = refl

resolve_of_valid_example :
    (r : RouteConfig) × Mem r two_config.routes
    × (resolve (new two_config.routes) (codes "unknown.example") ≡ some (target_of r))
    × IsConfigured r
resolve_of_valid_example = resolve_of_valid two_config (codes "unknown.example") two_config_valid
