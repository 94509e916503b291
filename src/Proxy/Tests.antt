-- ===== src/Proxy/Tests.antt =====
-- A proxy with one route in front of test crates, and an instance of what is proved of it.
use propylea.Acme.{try_serve_acme_challenge}
use propylea.Framing.{validate_headers}
use propylea.Http.{IsVisible}
use propylea.Headers.{
  referrer_policy, sanitize_ingress_headers, server, strict_transport_security,
  x_content_type_options, x_frame_options,
}
use propylea.Headers.Keep.{IsOnly}
use propylea.Config.Addr.{SocketAddr, v4}
use propylea.Router.{UpstreamTarget, new, target_of}
use propylea.Proxy.Serve.{
  Clock, Contact, Network, ProxyResponse, Served, answered, forward_http_request, hardened,
  serve_request,
}
use propylea.Proxy.Responses.{serve-IsHardened}
use propylea.Proxy.Recorded.{IsPlainRequest, Recorded, serve-IsRecorded}
use propylea.Proxy.Sent.{IsClean, rewired, serve-rewired}
use propylea.Http.Assoc.{Entries, assoc_get_all, assoc_headers}
use propylea.Config.{RouteConfig}
use propylea.Router
use propylea.Maintenance.{initial_metrics}
use propylea.Quarantine.Net.{NetApi}
use propylea.Defense.Shield.{ShieldApi}
use propylea.Proxy.{Live, ProxyRequest, ProxyState, handle_proxy_request_with_tls}
use propylea.Proxy.Forwarded.{IsHandedOn, handed_on, handle-IsHandedOn}
use propylea.Prelude.{
  All, Text, [], arith, codes, false, if◌then◌else◌, is_empty, none, ok, refl, some, text_eq, true,
  ℕ, ◌++◌, ◌+◌, ◌∷◌, ◌≡◌,
}

abbrev pub text_net : NetApi
text_net = record {
  IpNet = Text;
  IpAddr = Text;
  parse_net = λ s. some s;
  parse_addr = λ s. some s;
  contains_addr = λ n a. text_eq n a;
  same_addr = text_eq;
  host_net = λ a. a;
  new_net = λ a prefix. some a;
  net_addr = λ n. n;
  is_ipv4 = λ a. true;
  net_text = λ n. n;
}

-- A shield that finds every request harmless.
abbrev pub calm_shield : ShieldApi text_net
calm_shield = record {
  State = ℕ;
  addr_text = λ a. a;
  is_loopback = λ a. false;
  inspect = λ path query. none;
  normalize_path = λ path. path;
  derive_quarantine_cidr = λ s. some (s ++ codes "/24");
  record_and_check = λ s now n. n + 1;
  harvest_canary_probe = λ ua m now n. n;
  record_anomalous_uri = λ path ip now n. n + 1;
  evaluate_perimeter = λ req n. (none, n);
  bot_perimeter = λ ua path n. (none, n);
}

abbrev pub backend_route : RouteConfig
backend_route = record {
  domains = codes "a.example" ∷ [];
  upstream = some (v4 127 0 0 1 8001);
  upstreams = none;
  cert = codes "cert.pem";
  key = codes "key.pem";
  websocket = false;
  hedged_racing = none;
}

abbrev pub one_proxy : ProxyState assoc_headers text_net calm_shield
one_proxy = record {
  router = Router.new (backend_route ∷ []);
  security = record {
    enable_defense = true;
    abuseipdb_api_key = none;
    webhook_url = none;
    syslog_cef = false;
    server_banner = codes "edge";
    hsts = true;
    frame_options = codes "DENY";
    quarantine_db = none;
    control_socket = none;
    persist_quarantine = true;
    trusted_cidrs = [];
  };
  defense = record { has_manager = true; trusted_subnets = [] };
  acme_webroot = none;
  framing_guard = record { max_body_bytes = 100 };
  files = record { is_file = λ p. false; metadata_file_len = λ p. none; read = λ p. none };
}

abbrev pub get_index : ProxyRequest assoc_headers text_net calm_shield
get_index = record {
  client_ip = codes "203.0.113.7";
  method = codes "GET";
  uri_host = none;
  raw_path = codes "/index";
  query = none;
  headers = (codes "host", codes "A.example:443") ∷ (codes "x-real-ip", codes "10.0.0.1") ∷ [];
  tls_profile = none;
}

abbrev idle : Live assoc_headers text_net calm_shield
idle = record {
  governor = initial_metrics;
  telemetry = record { max_capacity = 10; records = [] };
  perimeter = record { shield = 0; queue = [] };
}

abbrev rewritten_headers : Entries
rewritten_headers = sanitize_ingress_headers assoc_headers (codes "203.0.113.7") get_index.headers

index_forwarded :
    handed_on assoc_headers text_net calm_shield
      (handle_proxy_request_with_tls assoc_headers text_net calm_shield one_proxy get_index 1000 5
        idle).0
    ≡ some (target_of backend_route, rewritten_headers)
unfolding handed_on handle_proxy_request_with_tls Router.new
index_forwarded = refl

handle-IsHandedOn_example :
    IsHandedOn assoc_headers text_net calm_shield one_proxy get_index 1000 idle
      (target_of backend_route)
      rewritten_headers
handle-IsHandedOn_example =
    handle-IsHandedOn assoc_headers text_net calm_shield one_proxy get_index 1000 5 idle
      (target_of backend_route) rewritten_headers index_forwarded

abbrev ok_body : Text
ok_body = codes "hello"

-- Every upstream answers, with a banner of its own.
abbrev pub talkative : Network assoc_headers text_net calm_shield
talkative = record {
  exchange = λ addr h. answered 200 ((codes "server", codes "nginx/1.0") ∷ []) ok_body;
  socket_text = λ addr. codes "127.0.0.1:8001";
}

abbrev pub at_noon : Clock
at_noon = record { received_ms = 1000; decided_us = 5; answered_ms = 1020; answered_us = 20000 }

index_framed :
    validate_headers assoc_headers one_proxy.framing_guard get_index.headers get_index.method
    ≡ ok tt
unfolding validate_headers
index_framed = refl

index_unserved :
    try_serve_acme_challenge one_proxy.files get_index.raw_path one_proxy.acme_webroot ≡ none
unfolding try_serve_acme_challenge
index_unserved = refl

banner-IsVisible : All IsVisible one_proxy.security.server_banner
banner-IsVisible = ground arith

frame-IsVisible : All IsVisible one_proxy.security.frame_options
frame-IsVisible = ground arith

abbrev index_response : ProxyResponse assoc_headers text_net calm_shield
index_response =
    hardened assoc_headers text_net calm_shield one_proxy.security 200
      ((codes "server", codes "nginx/1.0") ∷ []) ok_body

abbrev index_served : Served assoc_headers text_net calm_shield
index_served =
    serve_request assoc_headers text_net calm_shield one_proxy talkative get_index at_noon idle

index_answered : index_served.0 ≡ ok index_response
unfolding serve_request handle_proxy_request_with_tls forward_http_request Router.new
index_answered = refl

serve-IsHardened_example :
    (IsOnly assoc_headers server (codes "edge") index_response.headers
      × (IsOnly assoc_headers x_frame_options (codes "DENY") index_response.headers
          × (IsOnly assoc_headers x_content_type_options (codes "nosniff") index_response.headers
              × IsOnly assoc_headers referrer_policy
                  (codes "strict-origin-when-cross-origin")
                  index_response.headers)))
    × (one_proxy.security.hsts ≡ true
        → IsOnly assoc_headers strict_transport_security
            (codes "max-age=31536000; includeSubDomains; preload")
            index_response.headers)
serve-IsHardened_example =
    serve-IsHardened assoc_headers text_net calm_shield one_proxy talkative get_index at_noon idle
      index_response index_framed banner-IsVisible frame-IsVisible index_answered

index_plain :
    IsPlainRequest assoc_headers text_net calm_shield one_proxy talkative get_index at_noon
      rewritten_headers
unfolding sanitize_ingress_headers
index_plain = refl

serve-IsRecorded_example :
    Recorded assoc_headers text_net calm_shield one_proxy talkative get_index at_noon idle.telemetry
      index_served
serve-IsRecorded_example =
    serve-IsRecorded assoc_headers text_net calm_shield one_proxy talkative get_index at_noon idle
      index_framed index_unserved index_plain

-- An upstream that answers otherwise where it is sent a client's claim of its address.
abbrev gullible : SocketAddr → Entries → Contact Entries
gullible addr h =
    if is_empty (assoc_get_all (codes "x-client-ip") h)
    then answered 200 ((codes "server", codes "nginx/1.0") ∷ []) ok_body
    else answered 500 [] []

clean_answered :
    (target : UpstreamTarget) (h : Entries)
    → IsClean assoc_headers text_net calm_shield (codes "203.0.113.7") target h
    → talkative.exchange target.addr h ≡ gullible target.addr h
clean_answered target h clean = let none_claimed = clean.claims_dropped.1.0 in rw none_claimed refl

peer-IsVisible : All IsVisible (codes "203.0.113.7")
peer-IsVisible = ground arith

serve-rewired_example :
    index_served
    ≡ serve_request assoc_headers text_net calm_shield one_proxy
        (rewired assoc_headers text_net calm_shield one_proxy talkative gullible get_index at_noon)
        get_index
        at_noon
        idle
serve-rewired_example =
    serve-rewired assoc_headers text_net calm_shield one_proxy talkative gullible get_index at_noon
      idle peer-IsVisible clean_answered
