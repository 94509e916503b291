-- ===== src/Proxy.antt =====
-- src/proxy/mod.rs: `handle_proxy_request_with_tls`, up to the point where a request is handed to
-- the upstream. Every check is the one of its own module; the clock and the timer are arguments.
pub mod Forwarded
pub mod Serve
pub mod Responses
pub mod Recorded
pub mod Sent
pub mod System
mod Tests
use propylea.Http.{HeaderApi, get_str}
use propylea.Config.{SecurityConfig}
use propylea.Framing.{Check, FramingGuard, public_response, validate_headers}
use propylea.Headers.{sanitize_ingress_headers}
use propylea.Telemetry.{TelemetryRecord, TelemetryRingBuffer, record_entry, sanitize_query_string}
use propylea.TlsFingerprint.{ClientTlsProfile}
use propylea.Router.{UpstreamRouter, UpstreamTarget, resolve}
use propylea.Acme
use propylea.Acme.{FileSystem, Response, try_serve_acme_challenge}
use propylea.Maintenance
use propylea.Maintenance.{GovernorMetrics, record_threat}
use propylea.Quarantine.Net.{NetApi}
use propylea.Defense.Shield.{DefenseResponse, ShieldApi}
use propylea.Defense.{
  EdgeDefense, Outcome, Perimeter, Request, evaluate_request_full, unwrap_or_empty,
}
use propylea.Prelude.{
  Bool, Option, Text, codes, err, false, if◌then◌else◌, is_empty, none, not, ok, some, text_eq,
  to_ascii_lowercase, true, ℕ, ◌&&◌, ◌++◌, ◌==◌,
}

abbrev is_none {ℓ} : {A : Type ℓ} → Option A → Bool
is_none none = true
is_none (some a) = false

abbrev or_text : Option Text → Option Text → Option Text
or_text none b = b
or_text (some a) b = some a

-- `full_path`: the path, and the redacted query unless it is empty.
unfoldable pub full_path : Text → Option Text → Text
unfolding sanitize_query_string
full_path raw_path query =
    let sanitized = sanitize_query_string (unwrap_or_empty query) in
    if is_empty sanitized then raw_path else raw_path ++ (codes "?" ++ sanitized)

unfoldable pub threat_category_of : ℕ → Text
threat_category_of status =
    if status == 403
    then codes "Adversarial Exploit / Bot Intercept"
    else codes "Hostile Recon Probe"

-- `eq_ignore_ascii_case("websocket")`
abbrev is_websocket : Option Text → Bool
is_websocket none = false
is_websocket (some s) = text_eq (to_ascii_lowercase s) (codes "websocket")

module _ (api : HeaderApi) (net : NetApi) (phylax : ShieldApi net) where
  open api use {HeaderMap}

  pub record ProxyState : Type 0 where
    pub router : UpstreamRouter
    pub security : SecurityConfig
    pub defense : EdgeDefense net phylax
    pub acme_webroot : Option Text
    pub framing_guard : FramingGuard
    pub files : FileSystem

  -- What the requests change.
  pub record Live : Type 0 where
    pub governor : GovernorMetrics
    pub telemetry : TelemetryRingBuffer
    pub perimeter : Perimeter net phylax

  pub record ProxyRequest : Type 0 where
    pub client_ip : net.IpAddr
    pub method : Text
    pub uri_host : Option Text
    pub raw_path : Text
    pub query : Option Text
    pub headers : HeaderMap
    pub tls_profile : Option ClientTlsProfile

  -- How a request ends here. All but the first response get the downstream headers; the last two
  -- are handed on with the request's headers.
  pub data Decision : Type 0 where
    refused : (status : ℕ) (body : Text) → Decision
    challenge : Acme.Response → Decision
    denied : DefenseResponse → Decision
    unrecognized_host : Decision
    upgraded forwarded : UpstreamTarget → HeaderMap → Decision

  abbrev agent_of : HeaderMap → Option Text
  agent_of m = get_str api (codes "user-agent") m

  abbrev defense_request : ProxyRequest → HeaderMap → Request net phylax
  defense_request req m = record {
    client_ip = req.client_ip;
    method = req.method;
    path = req.raw_path;
    query = req.query;
    user_agent = agent_of m;
    tls_profile = req.tls_profile;
  }

  abbrev telemetry_record : ProxyRequest → HeaderMap → ℕ → ℕ → ℕ → Option Text → TelemetryRecord
  telemetry_record req m now_ms micros status threat = record {
    timestamp_ms = now_ms;
    client_ip = phylax.addr_text req.client_ip;
    method = req.method;
    path = full_path req.raw_path req.query;
    status = status;
    duration_us = micros;
    upstream_target = none;
    threat_trapped = not (is_none threat);
    threat_category = threat;
    user_agent = agent_of m;
  }

  abbrev host_of : ProxyRequest → HeaderMap → Text
  host_of req m = unwrap_or_empty (or_text req.uri_host (get_str api (codes "host") m))

  abbrev hand_on : Option Text → HeaderMap → UpstreamTarget → Decision
  hand_on upgrade m target =
      if is_websocket upgrade && target.websocket_allowed
      then upgraded target m
      else forwarded target m

  abbrev on_target :
      ProxyRequest → HeaderMap → ℕ → ℕ → Live → Option UpstreamTarget → Decision × Live
  on_target req m now_ms micros live (some target) =
      (hand_on (get_str api (codes "upgrade") m) m target, live)
  on_target req m now_ms micros live none = (
    unrecognized_host,
    record live {
      telemetry = record_entry live.telemetry (telemetry_record req m now_ms micros 502 none);
    },
  )

  unfoldable pub route_request :
      ProxyState → ProxyRequest → HeaderMap → ℕ → ℕ → Live → Decision × Live
  unfolding resolve record_entry full_path
  route_request st req m now_ms micros live =
      on_target req m now_ms micros live (resolve st.router (host_of req m))

  abbrev on_defense :
      ProxyState → ProxyRequest → HeaderMap → ℕ → ℕ → Live → Outcome net phylax → Decision × Live
  on_defense st req m now_ms micros live (none, p) =
      route_request st req m now_ms micros (record live { perimeter = p })
  on_defense st req m now_ms micros live (some res, p) = (
    denied res,
    record {
      governor = Maintenance.record_threat live.governor;
      telemetry =
          record_entry live.telemetry (
            telemetry_record req m now_ms micros res.status (some (threat_category_of res.status)));
      perimeter = p;
    },
  )

  unfoldable pub defend_request :
      ProxyState → ProxyRequest → HeaderMap → ℕ → ℕ → Live → Decision × Live
  unfolding evaluate_request_full Maintenance.record_threat record_entry threat_category_of
      route_request
  defend_request st req m now_ms micros live =
      if st.security.enable_defense
      then on_defense st req m now_ms micros live (
          evaluate_request_full net phylax st.defense (defense_request req m) now_ms live.perimeter)
      else route_request st req m now_ms micros live

  abbrev on_challenge :
      ProxyState → ProxyRequest → HeaderMap → ℕ → ℕ → Live → Option Acme.Response → Decision × Live
  on_challenge st req m now_ms micros live (some res) = (challenge res, live)
  on_challenge st req m now_ms micros live none = defend_request st req m now_ms micros live

  abbrev on_framing : ProxyState → ProxyRequest → ℕ → ℕ → Live → Check → Decision × Live
  on_framing st req now_ms micros live (err violation) = (
    refused (public_response violation).0 (public_response violation).1,
    record live { governor = Maintenance.record_threat live.governor },
  )
  on_framing st req now_ms micros live (ok u) =
      on_challenge st req
        (sanitize_ingress_headers api (phylax.addr_text req.client_ip) req.headers) now_ms micros
        live (try_serve_acme_challenge st.files req.raw_path st.acme_webroot)

  unfoldable pub handle_proxy_request_with_tls :
      ProxyState → ProxyRequest → ℕ → ℕ → Live → Decision × Live
  unfolding validate_headers public_response sanitize_ingress_headers try_serve_acme_challenge
      defend_request
  handle_proxy_request_with_tls st req now_ms micros live =
      on_framing st req now_ms micros live
        (validate_headers api st.framing_guard req.headers req.method)
