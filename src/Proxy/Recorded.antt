-- ===== src/Proxy/Recorded.antt =====
-- src/proxy/: which requests the telemetry records, and as what.
use mathlib.Core.Path.{subst}
use propylea.Proxy.Serve.{
  Clock, Contact, Network, ProxyResponse, Served, answered, check_harvester_promotion,
  forward_http_request, no_handshake, on_contact, respond, send_failed, serve_request, unreachable,
  upstream_headers, upstream_record,
}
use propylea.Proxy.{
  Decision, Live, ProxyRequest, ProxyState, defend_request, defense_request, forwarded, full_path,
  hand_on, handle_proxy_request_with_tls, host_of, is_websocket, on_challenge, on_defense,
  on_framing, on_target, route_request, telemetry_record, threat_category_of,
}
use propylea.Http.{HeaderApi, get_str}
use propylea.Framing.{validate_headers}
use propylea.Router.{UpstreamTarget, resolve}
use propylea.Headers.{sanitize_ingress_headers}
use propylea.Telemetry.{TelemetryRecord, TelemetryRingBuffer, record_entry}
use propylea.Acme.{try_serve_acme_challenge}
use propylea.Quarantine.Net.{NetApi}
use propylea.Defense.Shield.{ShieldApi}
use propylea.Defense.{Outcome, evaluate_request_full}
use propylea.Prelude.{
  Bool, Option, Text, ap, arith, codes, err, false, if◌then◌else◌, none, ok, refl, some, sym, true,
  ℕ, ◌∙◌, ◌≡◌,
}

module _ (api : HeaderApi) (net : NetApi) (phylax : ShieldApi net) where
  open api use {HeaderMap}

  module _ (st : ProxyState api net phylax) (nw : Network api net phylax)
      (req : ProxyRequest api net phylax) (clock : Clock) where
    -- One entry is added, and it is about this request and this response.
    pub record IsRecorded (before : TelemetryRingBuffer) (res : ProxyResponse api net phylax)
        (after : Live api net phylax) : Type 0 where
      pub entry : TelemetryRecord
      pub added : after.telemetry ≡ record_entry before entry
      pub same_client : entry.client_ip ≡ phylax.addr_text req.client_ip
      pub same_method : entry.method ≡ req.method
      pub redacted_path : entry.path ≡ full_path req.raw_path req.query
      pub same_status : entry.status ≡ res.status

    abbrev pub Recorded : TelemetryRingBuffer → Served api net phylax → Type 0
    Recorded before (ok res, after) = IsRecorded before res after
    Recorded before (err e, after) = after.telemetry ≡ before

    promotion-telemetry :
        (on : Bool) (status now_ms : ℕ) (live : Live api net phylax)
        → (check_harvester_promotion api net phylax on status req now_ms live).telemetry
          ≡ live.telemetry
    unfolding check_harvester_promotion
    promotion-telemetry on status now_ms live = ground arith

    contact-Recorded :
        (peer : Text) (m : HeaderMap) (target : UpstreamTarget) (live : Live api net phylax)
        (c : Contact HeaderMap)
        → Recorded live.telemetry (on_contact api net phylax st peer req m clock target live c)
    contact-Recorded peer m target live unreachable = record {
      entry = upstream_record api net phylax peer req m clock target 502;
      added = refl;
      same_client = refl;
      same_method = refl;
      redacted_path = refl;
      same_status = refl;
    }
    contact-Recorded peer m target live (no_handshake e) = refl
    contact-Recorded peer m target live (send_failed e) = record {
      entry = upstream_record api net phylax peer req m clock target 502;
      added = refl;
      same_client = refl;
      same_method = refl;
      redacted_path = refl;
      same_status = refl;
    }
    contact-Recorded peer m target live (answered status headers body) = record {
      entry = upstream_record api net phylax peer req m clock target status;
      added =
          ap (λ t. record_entry t (upstream_record api net phylax peer req m clock target status))
            (promotion-telemetry st.security.enable_defense status clock.answered_ms live);
      same_client = refl;
      same_method = refl;
      redacted_path = refl;
      same_status = refl;
    }

    -- The request asks for no upgrade.
    abbrev pub IsPlainRequest : HeaderMap → Type 0
    IsPlainRequest m = is_websocket (get_str api (codes "upgrade") m) ≡ false

    hand_on-plain :
        (upgrade : Option Text) (m : HeaderMap) (target : UpstreamTarget)
        → is_websocket upgrade ≡ false
        → hand_on api net phylax upgrade m target ≡ forwarded target m
    hand_on-plain upgrade m target plain = ground arith

    target-Recorded :
        (m : HeaderMap) (live : Live api net phylax) (o : Option UpstreamTarget)
        → IsPlainRequest m
        → Recorded live.telemetry (
            respond api net phylax st nw req clock
              (on_target api net phylax req m clock.received_ms clock.decided_us live o))
    unfolding forward_http_request
    target-Recorded m live none plain = record {
      entry = telemetry_record api net phylax req m clock.received_ms clock.decided_us 502 none;
      added = refl;
      same_client = refl;
      same_method = refl;
      redacted_path = refl;
      same_status = refl;
    }
    target-Recorded m live (some target) plain =
        subst
          (λ (d : Decision api net phylax).
            Recorded live.telemetry (respond api net phylax st nw req clock (d, live)))
          (sym (hand_on-plain (get_str api (codes "upgrade") m) m target plain))
          (contact-Recorded (nw.socket_text target.addr) m target live (
            nw.exchange target.addr
              (upstream_headers api net phylax (phylax.addr_text req.client_ip) target m)))

    route-Recorded :
        (m : HeaderMap) (live : Live api net phylax)
        → IsPlainRequest m
        → Recorded live.telemetry (
            respond api net phylax st nw req clock
              (route_request api net phylax st req m clock.received_ms clock.decided_us live))
    unfolding route_request
    route-Recorded m live plain =
        target-Recorded m live (resolve st.router (host_of api net phylax req m)) plain

    defense-Recorded :
        (m : HeaderMap) (live : Live api net phylax) (o : Outcome net phylax)
        → IsPlainRequest m
        → Recorded live.telemetry (
            respond api net phylax st nw req clock
              (on_defense api net phylax st req m clock.received_ms clock.decided_us live o))
    defense-Recorded m live (none, p) plain = route-Recorded m (record live { perimeter = p }) plain
    defense-Recorded m live (some r, p) plain = record {
      entry =
          telemetry_record api net phylax req m clock.received_ms clock.decided_us r.status
            (some (threat_category_of r.status));
      added = refl;
      same_client = refl;
      same_method = refl;
      redacted_path = refl;
      same_status = refl;
    }

    if-Recorded :
        (before : TelemetryRingBuffer) (b : Bool)
        (x y : Decision api net phylax × Live api net phylax)
        → Recorded before (respond api net phylax st nw req clock x)
        → Recorded before (respond api net phylax st nw req clock y)
        → Recorded before (respond api net phylax st nw req clock (if b then x else y))
    if-Recorded before true x y h k = h
    if-Recorded before false x y h k = k

    defend-Recorded :
        (m : HeaderMap) (live : Live api net phylax)
        → IsPlainRequest m
        → Recorded live.telemetry (
            respond api net phylax st nw req clock
              (defend_request api net phylax st req m clock.received_ms clock.decided_us live))
    unfolding defend_request
    defend-Recorded m live plain =
        let judged =
          evaluate_request_full net phylax st.defense (defense_request api net phylax req m)
            clock.received_ms live.perimeter in
        if-Recorded live.telemetry st.security.enable_defense
          (on_defense api net phylax st req m clock.received_ms clock.decided_us live judged)
          (route_request api net phylax st req m clock.received_ms clock.decided_us live)
          (defense-Recorded m live judged plain) (route-Recorded m live plain)

    handle-defend :
        (live : Live api net phylax)
        → validate_headers api st.framing_guard req.headers req.method ≡ ok tt
        → try_serve_acme_challenge st.files req.raw_path st.acme_webroot ≡ none
        → handle_proxy_request_with_tls api net phylax st req clock.received_ms clock.decided_us
            live
          ≡ defend_request api net phylax st req
              (sanitize_ingress_headers api (phylax.addr_text req.client_ip) req.headers)
              clock.received_ms
              clock.decided_us
              live
    unfolding handle_proxy_request_with_tls
    handle-defend live framed unserved =
        ap (on_framing api net phylax st req clock.received_ms clock.decided_us live) framed
        ∙ ap
            (on_challenge api net phylax st req
              (sanitize_ingress_headers api (phylax.addr_text req.client_ip) req.headers)
              clock.received_ms clock.decided_us live)
            unserved

    -- A request that passes the framing guard, is no ACME challenge and asks for no upgrade is
    -- recorded exactly once if it gets a response, the upstream's, a refusal or a 502: with the
    -- client, the method, the path with its query redacted, and the status of that response. Where
    -- the connection to the upstream fails in the handshake, there is neither response nor record.
    pub serve-IsRecorded :
        (live : Live api net phylax)
        → validate_headers api st.framing_guard req.headers req.method ≡ ok tt
        → try_serve_acme_challenge st.files req.raw_path st.acme_webroot ≡ none
        → IsPlainRequest (sanitize_ingress_headers api (phylax.addr_text req.client_ip) req.headers)
        → Recorded live.telemetry (serve_request api net phylax st nw req clock live)
    unfolding serve_request
    serve-IsRecorded live framed unserved plain =
        subst
          (λ (d : Decision api net phylax × Live api net phylax).
            Recorded live.telemetry (respond api net phylax st nw req clock d))
          (sym (handle-defend live framed unserved))
          (defend-Recorded
            (sanitize_ingress_headers api (phylax.addr_text req.client_ip) req.headers) live plain)
