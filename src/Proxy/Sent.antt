-- ===== src/Proxy/Sent.antt =====
-- src/proxy/: what an upstream sees of a request.
use mathlib.Core.Path.{subst}
use propylea.Proxy.Serve.{
  Clock, Contact, Network, forward_http_request, handle_websocket_upgrade, on_contact, on_upgrade,
  respond, serve_request, upstream_headers,
}
use propylea.Proxy.{
  Decision, Live, ProxyRequest, ProxyState, challenge, denied, forwarded,
  handle_proxy_request_with_tls, refused, unrecognized_host, upgraded,
}
use propylea.Proxy.Forwarded.{handed_on, handle-IsHandedOn}
use propylea.Http.{HeaderApi, IsVisible}
use propylea.Router.{UpstreamTarget}
use propylea.Config.Addr.{SocketAddr}
use propylea.Headers.{
  cf_connecting_ip, https, sanitize_ingress_headers, true_client_ip, via, via_banner, x_client_ip,
  x_forwarded_host, x_forwarded_proto, x_real_ip,
}
use propylea.Headers.Keep.{
  IsOnly, get_all-insert_str_other, insert_str-IsOnly, insert_str-IsOnly_other,
}
use propylea.Headers.Others.{claimed_names}
use propylea.Headers.Upstream.{claimed_names-dropped, forwarded_headers, forwarded_headers-IsOnly}
use propylea.Quarantine.Net.{NetApi}
use propylea.Defense.Shield.{ShieldApi}
use propylea.Prelude.{All, Text, [], ap, codes, false, refl, some, text_eq, ◌∙◌, ◌≡◌}

module _ (api : HeaderApi) (net : NetApi) (phylax : ShieldApi net) where
  open api use {HeaderMap, get_all}

  -- The headers tell of the client at this address what the proxy knows, and nothing that the
  -- client claims; and they name the route's host, where that is visible text.
  pub record IsClean (ip : Text) (target : UpstreamTarget) (h : HeaderMap) : Type 0 where
    pub real_ip : IsOnly api x_real_ip ip h
    pub forwarded_proto : IsOnly api x_forwarded_proto https h
    pub via_proxy : IsOnly api via via_banner h
    pub claims_dropped : All (λ k. get_all k h ≡ []) claimed_names
    pub host : All IsVisible target.primary_host → IsOnly api (codes "host") target.primary_host h

  abbrev host_name : Text
  host_name = codes "host"

  upstream_headers-IsClean :
      (ip : Text) (target : UpstreamTarget) (m : HeaderMap)
      → All IsVisible ip
      → IsClean ip target
          (upstream_headers api net phylax ip target (sanitize_ingress_headers api ip m))
  unfolding upstream_headers
  upstream_headers-IsClean ip target m visible =
      let (real, (proto, (via_one, rest))) = forwarded_headers-IsOnly api ip m visible in
      let (d1, (d2, (d3, (d4, end)))) = claimed_names-dropped api ip m in
      let f = forwarded_headers api ip m in
      let other = λ (k : Text) (differs : text_eq host_name k ≡ false).
        get_all-insert_str_other api host_name k target.primary_host f differs in
      record {
        real_ip =
            insert_str-IsOnly_other api host_name x_real_ip ip target.primary_host f refl real;
        forwarded_proto =
            insert_str-IsOnly_other api host_name x_forwarded_proto https target.primary_host f refl
              proto;
        via_proxy =
            insert_str-IsOnly_other api host_name via via_banner target.primary_host f refl via_one;
        claims_dropped = (
          other x_forwarded_host refl ∙ d1,
          (
            other x_client_ip refl ∙ d2,
            (other cf_connecting_ip refl ∙ d3, (other true_client_ip refl ∙ d4, tt)),
          ),
        );
        host = λ shown. insert_str-IsOnly api host_name target.primary_host f shown;
      }

  module _ (st : ProxyState api net phylax) (nw : Network api net phylax)
      (exchange : SocketAddr → HeaderMap → Contact HeaderMap) (req : ProxyRequest api net phylax)
      (clock : Clock) where
    -- The same names of addresses, and other upstreams.
    abbrev pub rewired : Network api net phylax
    rewired = record { exchange = exchange; socket_text = nw.socket_text }

    abbrev headers_for : UpstreamTarget → HeaderMap → HeaderMap
    headers_for target m = upstream_headers api net phylax (phylax.addr_text req.client_ip) target m

    respond-rewired :
        (d : Decision api net phylax) (live : Live api net phylax)
        → ((target : UpstreamTarget) (m : HeaderMap)
            → handed_on api net phylax d ≡ some (target, m)
            → nw.exchange target.addr (headers_for target m)
              ≡ exchange target.addr (headers_for target m))
        → respond api net phylax st nw req clock (d, live)
          ≡ respond api net phylax st rewired req clock (d, live)
    unfolding handed_on handle_websocket_upgrade forward_http_request
    respond-rewired (refused s b) live agree = refl
    respond-rewired (challenge r) live agree = refl
    respond-rewired (denied r) live agree = refl
    respond-rewired unrecognized_host live agree = refl
    respond-rewired (upgraded target m) live agree =
        ap (on_upgrade api net phylax st (nw.socket_text target.addr) req m clock target live)
          (agree target m refl)
    respond-rewired (forwarded target m) live agree =
        ap (on_contact api net phylax st (nw.socket_text target.addr) req m clock target live)
          (agree target m refl)

    -- Upstreams see clean requests only: the response, the telemetry and all other state depend on
    -- the upstreams only by what they answer to requests with clean headers, whatever headers the
    -- client sent; the client's address is visible text.
    pub serve-rewired :
        (live : Live api net phylax)
        → All IsVisible (phylax.addr_text req.client_ip)
        → ((target : UpstreamTarget) (h : HeaderMap)
            → IsClean (phylax.addr_text req.client_ip) target h
            → nw.exchange target.addr h ≡ exchange target.addr h)
        → serve_request api net phylax st nw req clock live
          ≡ serve_request api net phylax st rewired req clock live
    unfolding serve_request
    serve-rewired live visible agree =
        let done =
          handle_proxy_request_with_tls api net phylax st req clock.received_ms clock.decided_us
            live in
        respond-rewired done.0 done.1 λ target m handed.
          let known =
            handle-IsHandedOn api net phylax st req clock.received_ms clock.decided_us live target m
              handed in
          subst
            (λ (k : HeaderMap).
              nw.exchange target.addr (headers_for target k)
              ≡ exchange target.addr (headers_for target k))
            known.rewritten
            (agree target _ (
              upstream_headers-IsClean (phylax.addr_text req.client_ip) target req.headers visible))
