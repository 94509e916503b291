-- ===== src/Proxy/Serve.antt =====
-- src/proxy/forward.rs and src/proxy/websocket.rs: from the decision on a request to the response.
-- The upstream is a parameter: what comes of connecting to an address, of the handshake and of
-- sending a request. Bodies are passed on as they are; the tunnel of an upgraded connection is I/O.
use propylea.Proxy.{
  Decision, Live, ProxyRequest, ProxyState, challenge, denied, forwarded, full_path,
  handle_proxy_request_with_tls, refused, telemetry_record, unrecognized_host, upgraded,
}
use propylea.Http.{HeaderApi}
use propylea.Config.{SecurityConfig}
use propylea.Config.Addr.{SocketAddr}
use propylea.Router.{UpstreamTarget}
use propylea.Headers.{inject_downstream_security_headers, insert_str, prepare_upstream_headers}
use propylea.Telemetry.{TelemetryRecord, record_entry}
use propylea.Quarantine.Net.{NetApi}
use propylea.Defense.Shield.{ShieldApi}
use propylea.Prelude.{
  Bool, Bytes, Option, Result, Text, before_char, codes, err, if◌then◌else◌, none, ok, some, ℕ,
  ◌&&◌, ◌==◌,
}

-- What comes of `TcpStream::connect`, `handshake` and `send_request`, in this order.
pub data Contact (HeaderMap : Type 0) : Type 0 where
  unreachable : Contact HeaderMap
  no_handshake : Text → Contact HeaderMap
  send_failed : Text → Contact HeaderMap
  answered : (status : ℕ) (headers : HeaderMap) (body : Bytes) → Contact HeaderMap

-- When a request came in and when its response was ready.
pub record Clock : Type 0 where
  pub received_ms : ℕ
  pub decided_us : ℕ
  pub answered_ms : ℕ
  pub answered_us : ℕ

abbrev pub upstream_unavailable : Text
upstream_unavailable = codes "502 Bad Gateway: Upstream Unavailable\n"

abbrev pub upstream_protocol_error : Text
upstream_protocol_error = codes "502 Bad Gateway: Upstream Protocol Error\n"

abbrev pub unrecognized_sovereign_host : Text
unrecognized_sovereign_host = codes "502 Bad Gateway: Unrecognized Sovereign Host\n"

module _ (api : HeaderApi) (net : NetApi) (phylax : ShieldApi net) where
  open api use {HeaderMap, insert, from_static, empty_map}

  pub record Network : Type 0 where
    pub exchange : SocketAddr → HeaderMap → Contact HeaderMap
    pub socket_text : SocketAddr → Text

  pub record ProxyResponse : Type 0 where
    pub status : ℕ
    pub headers : HeaderMap
    pub body : Bytes

  abbrev pub Served : Type 0
  Served = Result ProxyResponse Text × Live api net phylax

  -- The headers that an upstream is sent: the proxy's own, and the route's host.
  unfoldable pub upstream_headers : Text → UpstreamTarget → HeaderMap → HeaderMap
  upstream_headers ip target m =
      insert_str api (codes "host") target.primary_host (prepare_upstream_headers api ip m)

  abbrev pub hardened : SecurityConfig → ℕ → HeaderMap → Bytes → ProxyResponse
  hardened security status m body = record {
    status = status;
    headers = inject_downstream_security_headers api security m;
    body = body;
  }

  abbrev pub bad_gateway : SecurityConfig → Text → ProxyResponse
  bad_gateway security message = hardened security 502 empty_map message

  -- `peer` is the text of the upstream's address.
  abbrev pub upstream_record :
      Text → ProxyRequest api net phylax → HeaderMap → Clock → UpstreamTarget → ℕ → TelemetryRecord
  upstream_record peer req m clock target status =
      record (telemetry_record api net phylax req m clock.answered_ms clock.answered_us status
        none) { upstream_target = some peer }

  abbrev pub record_upstream :
      Text
      → ProxyRequest api net phylax
      → HeaderMap
      → Clock
      → UpstreamTarget
      → ℕ
      → Live api net phylax
      → Live api net phylax
  record_upstream peer req m clock target status live = record live {
    telemetry = record_entry live.telemetry (upstream_record peer req m clock target status);
  }

  -- A path that the upstream does not know is told to the harvester.
  unfoldable pub check_harvester_promotion :
      Bool → ℕ → ProxyRequest api net phylax → ℕ → Live api net phylax → Live api net phylax
  check_harvester_promotion enable_defense status req now_ms live =
      if enable_defense && status == 404
      then record live {
        perimeter = record live.perimeter {
          shield =
              phylax.record_anomalous_uri (before_char b'?' (full_path req.raw_path req.query))
                req.client_ip now_ms live.perimeter.shield;
        };
      }
      else live

  abbrev pub on_contact :
      ProxyState api net phylax
      → Text
      → ProxyRequest api net phylax
      → HeaderMap
      → Clock
      → UpstreamTarget
      → Live api net phylax
      → Contact HeaderMap
      → Served
  on_contact st peer req m clock target live unreachable = (
    ok (bad_gateway st.security upstream_unavailable),
    record_upstream peer req m clock target 502 live,
  )
  on_contact st peer req m clock target live (no_handshake e) = (err e, live)
  on_contact st peer req m clock target live (send_failed e) = (
    ok (bad_gateway st.security upstream_protocol_error),
    record_upstream peer req m clock target 502 live,
  )
  on_contact st peer req m clock target live (answered status headers body) = (
    ok (hardened st.security status headers body),
    record_upstream peer req m clock target status
        (check_harvester_promotion st.security.enable_defense status req clock.answered_ms live),
  )

  unfoldable pub forward_http_request :
      ProxyState api net phylax
      → Network
      → ProxyRequest api net phylax
      → HeaderMap
      → Clock
      → UpstreamTarget
      → Live api net phylax
      → Served
  unfolding upstream_headers check_harvester_promotion record_entry
  forward_http_request st nw req m clock target live =
      on_contact st (nw.socket_text target.addr) req m clock target live
        (nw.exchange target.addr (upstream_headers (phylax.addr_text req.client_ip) target m))

  -- A connection that fails is not recorded here, and a request that cannot be sent is an error.
  abbrev pub on_upgrade :
      ProxyState api net phylax
      → Text
      → ProxyRequest api net phylax
      → HeaderMap
      → Clock
      → UpstreamTarget
      → Live api net phylax
      → Contact HeaderMap
      → Served
  on_upgrade st peer req m clock target live unreachable =
      (ok (bad_gateway st.security upstream_unavailable), live)
  on_upgrade st peer req m clock target live (no_handshake e) = (err e, live)
  on_upgrade st peer req m clock target live (send_failed e) = (err e, live)
  on_upgrade st peer req m clock target live (answered status headers body) = (
    ok (hardened st.security status headers body),
    record_upstream peer req m clock target (if status == 101 then 101 else status) live,
  )

  unfoldable pub handle_websocket_upgrade :
      ProxyState api net phylax
      → Network
      → ProxyRequest api net phylax
      → HeaderMap
      → Clock
      → UpstreamTarget
      → Live api net phylax
      → Served
  unfolding upstream_headers record_entry
  handle_websocket_upgrade st nw req m clock target live =
      on_upgrade st (nw.socket_text target.addr) req m clock target live
        (nw.exchange target.addr (upstream_headers (phylax.addr_text req.client_ip) target m))

  abbrev content_type_headers : Option Text → HeaderMap
  content_type_headers none = empty_map
  content_type_headers (some t) = insert (codes "content-type") (from_static t) empty_map

  -- The headers of a refusal: the type, and the length where it is a header value.
  abbrev denial_headers : Text → Text → HeaderMap
  denial_headers content_type content_length =
      insert_str api (codes "content-length") content_length
        (insert (codes "content-type") (from_static content_type) empty_map)

  -- A framing violation is answered as it is, every other response is hardened.
  abbrev pub respond :
      ProxyState api net phylax
      → Network
      → ProxyRequest api net phylax
      → Clock
      → Decision api net phylax × Live api net phylax
      → Served
  respond st nw req clock (refused status body, live) = (
    ok (record {
      status = status;
      headers = content_type_headers (some (codes "text/plain; charset=utf-8"));
      body = body;
    }),
    live,
  )
  respond st nw req clock (challenge res, live) =
      (ok (hardened st.security res.status (content_type_headers res.content_type) res.body), live)
  respond st nw req clock (denied res, live) = (
    ok (
        hardened st.security res.status (denial_headers res.content_type res.content_length)
          res.body),
    live,
  )
  respond st nw req clock (unrecognized_host, live) =
      (ok (bad_gateway st.security unrecognized_sovereign_host), live)
  respond st nw req clock (upgraded target m, live) =
      handle_websocket_upgrade st nw req m clock target live
  respond st nw req clock (forwarded target m, live) =
      forward_http_request st nw req m clock target live

  unfoldable pub serve_request :
      ProxyState api net phylax
      → Network
      → ProxyRequest api net phylax
      → Clock
      → Live api net phylax
      → Served
  unfolding handle_proxy_request_with_tls handle_websocket_upgrade forward_http_request
  serve_request st nw req clock live =
      respond st nw req clock (
        handle_proxy_request_with_tls api net phylax st req clock.received_ms clock.decided_us live)
