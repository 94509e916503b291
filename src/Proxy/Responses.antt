-- ===== src/Proxy/Responses.antt =====
-- src/proxy/: what holds of every response, and of the record of the request that it answers.
use mathlib.Core.Path.{subst}
use propylea.Proxy.Serve.{
  Clock, Contact, Network, ProxyResponse, answered, forward_http_request, handle_websocket_upgrade,
  hardened, no_handshake, on_contact, on_upgrade, respond, send_failed, serve_request, unreachable,
}
use propylea.Proxy.{
  Decision, Live, ProxyRequest, ProxyState, challenge, defend_request, denied, forwarded,
  handle_proxy_request_with_tls, on_challenge, on_defense, on_framing, on_target, refused,
  route_request, unrecognized_host, upgraded,
}
use propylea.Http.{HeaderApi, IsVisible}
use propylea.Framing.{Check, validate_headers}
use propylea.Router.{UpstreamTarget}
use propylea.Headers.{
  inject_downstream_security_headers, referrer_policy, sanitize_ingress_headers, server,
  strict_transport_security, x_content_type_options, x_frame_options,
}
use propylea.Headers.Keep.{IsOnly}
use propylea.Headers.Downstream.{inject_downstream-IsOnly, inject_downstream-hsts}
use propylea.Acme
use propylea.Acme.{Response, try_serve_acme_challenge}
use propylea.Quarantine.Net.{NetApi}
use propylea.Defense.Shield.{ShieldApi}
use propylea.Defense.{Outcome}
use propylea.Prelude.{
  All, Bool, Bool-cases, Bytes, Option, Result, Text, ap, arith, codes, false, inl, inr, none, ok,
  refl, some, sym, true, ℕ, ◌≡◌,
}

module _ (api : HeaderApi) (net : NetApi) (phylax : ShieldApi net) where
  open api use {HeaderMap}

  module _ (st : ProxyState api net phylax) (nw : Network api net phylax)
      (req : ProxyRequest api net phylax) (clock : Clock) where
    -- The headers are what the hardening made of some others.
    abbrev IsInjected : HeaderMap → Type 0
    IsInjected h = (m : HeaderMap) × (h ≡ inject_downstream_security_headers api st.security m)

    hardened-IsInjected :
        (status : ℕ) (m : HeaderMap) (body : Bytes) (res : ProxyResponse api net phylax)
        → ◌≡◌ {A = Result (ProxyResponse api net phylax) Text}
            (ok (hardened api net phylax st.security status m body))
            (ok res)
        → IsInjected res.headers
    hardened-IsInjected status m body res h =
        let same : hardened api net phylax st.security status m body ≡ res = cc in
        (m, ap (λ r. r.headers) (sym same))

    contact-IsInjected :
        (peer : Text) (m : HeaderMap) (target : UpstreamTarget) (live : Live api net phylax)
        (c : Contact HeaderMap) (res : ProxyResponse api net phylax)
        → (on_contact api net phylax st peer req m clock target live c).0 ≡ ok res
        → IsInjected res.headers
    contact-IsInjected peer m target live unreachable res h = hardened-IsInjected 502 _ _ res h
    contact-IsInjected peer m target live (no_handshake e) res h = cc
    contact-IsInjected peer m target live (send_failed e) res h = hardened-IsInjected 502 _ _ res h
    contact-IsInjected peer m target live (answered s headers b) res h =
        hardened-IsInjected s headers b res h

    upgrade-IsInjected :
        (peer : Text) (m : HeaderMap) (target : UpstreamTarget) (live : Live api net phylax)
        (c : Contact HeaderMap) (res : ProxyResponse api net phylax)
        → (on_upgrade api net phylax st peer req m clock target live c).0 ≡ ok res
        → IsInjected res.headers
    upgrade-IsInjected peer m target live unreachable res h = hardened-IsInjected 502 _ _ res h
    upgrade-IsInjected peer m target live (no_handshake e) res h = cc
    upgrade-IsInjected peer m target live (send_failed e) res h = cc
    upgrade-IsInjected peer m target live (answered s headers b) res h =
        hardened-IsInjected s headers b res h

    abbrev is_refused : Decision api net phylax → Bool
    is_refused (refused status body) = true
    is_refused other = false

    respond-IsInjected :
        (d : Decision api net phylax) (live : Live api net phylax)
        (res : ProxyResponse api net phylax)
        → is_refused d ≡ false
        → (respond api net phylax st nw req clock (d, live)).0 ≡ ok res
        → IsInjected res.headers
    unfolding handle_websocket_upgrade forward_http_request
    respond-IsInjected (refused s b) live res k h = cc
    respond-IsInjected (challenge r) live res k h = hardened-IsInjected r.status _ r.body res h
    respond-IsInjected (denied r) live res k h = hardened-IsInjected r.status _ r.body res h
    respond-IsInjected unrecognized_host live res k h = hardened-IsInjected 502 _ _ res h
    respond-IsInjected (upgraded target m) live res k h =
        upgrade-IsInjected (nw.socket_text target.addr) m target live _ res h
    respond-IsInjected (forwarded target m) live res k h =
        contact-IsInjected (nw.socket_text target.addr) m target live _ res h

    target-unrefused :
        (m : HeaderMap) (now_ms micros : ℕ) (live : Live api net phylax) (o : Option UpstreamTarget)
        → is_refused (on_target api net phylax req m now_ms micros live o).0 ≡ false
    target-unrefused m now_ms micros live none = refl
    target-unrefused m now_ms micros live (some target) = ground arith

    defense-unrefused :
        (m : HeaderMap) (now_ms micros : ℕ) (live : Live api net phylax) (o : Outcome net phylax)
        → is_refused (on_defense api net phylax st req m now_ms micros live o).0 ≡ false
    unfolding route_request
    defense-unrefused m now_ms micros live (some r, p) = refl
    defense-unrefused m now_ms micros live (none, p) =
        target-unrefused m now_ms micros (record live { perimeter = p }) _

    defend-unrefused :
        (m : HeaderMap) (now_ms micros : ℕ) (live : Live api net phylax)
        → is_refused (defend_request api net phylax st req m now_ms micros live).0 ≡ false
    unfolding defend_request route_request
    defend-unrefused m now_ms micros live = elim (Bool-cases st.security.enable_defense) [
      | inl on ↦ rw (on, defend_request) (defense-unrefused m now_ms micros live _)
      | inr off ↦ rw (off, defend_request, route_request) (target-unrefused m now_ms micros live _)
    ]

    challenge-unrefused :
        (m : HeaderMap) (now_ms micros : ℕ) (live : Live api net phylax) (o : Option Acme.Response)
        → is_refused (on_challenge api net phylax st req m now_ms micros live o).0 ≡ false
    challenge-unrefused m now_ms micros live none = defend-unrefused m now_ms micros live
    challenge-unrefused m now_ms micros live (some r) = refl

    handle-unrefused :
        (live : Live api net phylax)
        → validate_headers api st.framing_guard req.headers req.method ≡ ok tt
        → is_refused
            (handle_proxy_request_with_tls api net phylax st req clock.received_ms clock.decided_us
              live).0
          ≡ false
    unfolding handle_proxy_request_with_tls
    handle-unrefused live framed =
        subst
          (λ (c : Check).
            is_refused
              (on_framing api net phylax st req clock.received_ms clock.decided_us live c).0
            ≡ false)
          (sym framed)
          (challenge-unrefused
            (sanitize_ingress_headers api (phylax.addr_text req.client_ip) req.headers)
            clock.received_ms clock.decided_us live
            (try_serve_acme_challenge st.files req.raw_path st.acme_webroot))

    -- Every response to a request that passes the framing guard, whoever makes it, the upstream, the
    -- perimeter, the ACME responder or the proxy itself, has exactly one Server, X-Frame-Options,
    -- X-Content-Type-Options and Referrer-Policy header, each the configured or fixed text, and
    -- where the configuration asks for it exactly one Strict-Transport-Security header, the preload
    -- policy; the configured texts are visible.
    pub serve-IsHardened :
        (live : Live api net phylax) (res : ProxyResponse api net phylax)
        → validate_headers api st.framing_guard req.headers req.method ≡ ok tt
        → All IsVisible st.security.server_banner
        → All IsVisible st.security.frame_options
        → (serve_request api net phylax st nw req clock live).0 ≡ ok res
        → (IsOnly api server st.security.server_banner res.headers
            × (IsOnly api x_frame_options st.security.frame_options res.headers
                × (IsOnly api x_content_type_options (codes "nosniff") res.headers
                    × IsOnly api referrer_policy
                        (codes "strict-origin-when-cross-origin")
                        res.headers)))
          × (st.security.hsts ≡ true
              → IsOnly api strict_transport_security
                  (codes "max-age=31536000; includeSubDomains; preload")
                  res.headers)
    unfolding serve_request
    serve-IsHardened live res framed banner frame h =
        let done =
          handle_proxy_request_with_tls api net phylax st req clock.received_ms clock.decided_us
            live in
        let (m, from) = respond-IsInjected done.0 done.1 res (handle-unrefused live framed) h in
        rw from (
          inject_downstream-IsOnly api st.security m banner frame,
          (inject_downstream-hsts api st.security m).0,
        )
