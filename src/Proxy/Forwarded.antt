-- ===== src/Proxy/Forwarded.antt =====
-- src/proxy/mod.rs: what holds of every request that is handed to an upstream.
use mathlib.Core.Path.{subst}
use propylea.Http.{HeaderApi, get_str}
use propylea.Framing.{Check, validate_headers}
use propylea.Router.{UpstreamTarget, resolve}
use propylea.Quarantine.Net.{NetApi}
use propylea.Defense.Shield.{ShieldApi}
use propylea.Defense.{Outcome, evaluate_request_full, is_trusted}
use propylea.Framing.Accepted.{IsFramed, validate_headers-IsFramed}
use propylea.Defense.Verdicts.{Passes, evaluate-Passes}
use propylea.Headers.{sanitize_ingress_headers}
use propylea.Acme
use propylea.Acme.{Response, try_serve_acme_challenge}
use propylea.Proxy.{
  Decision, Live, ProxyRequest, ProxyState, defend_request, defense_request, forwarded, hand_on,
  handle_proxy_request_with_tls, host_of, is_websocket, on_challenge, on_defense, on_framing,
  on_target, route_request, upgraded,
}
use propylea.Prelude.{
  Bool-cases, Option, Text, ap, codes, err, false, inl, inr, none, ok, refl, some, sym, true, ℕ,
  ◌&&◌, ◌∙◌, ◌≡◌, ◌⊎◌,
}

module _ (api : HeaderApi) (net : NetApi) (phylax : ShieldApi net) where
  open api use {HeaderMap}

  -- The target and the headers that a request is handed on with.
  unfoldable pub handed_on : Decision api net phylax → Option (UpstreamTarget × HeaderMap)
  handed_on (forwarded target m) = some (target, m)
  handed_on (upgraded target m) = some (target, m)
  handed_on other = none

  hand_on-handed :
      (upgrade : Option Text) (m : HeaderMap) (target : UpstreamTarget)
      → handed_on (hand_on api net phylax upgrade m target) ≡ some (target, m)
  unfolding handed_on
  hand_on-handed upgrade m target =
      elim (Bool-cases (is_websocket upgrade && target.websocket_allowed)) [
        | inl e ↦ rw (e, handed_on)
        | inr e ↦ rw (e, handed_on)
      ]

  pair_inj : (x y : UpstreamTarget × HeaderMap) → some x ≡ some y → (x.0 ≡ y.0) × (x.1 ≡ y.1)
  pair_inj x y h = let same : x ≡ y = cc in (ap (λ z. z.0) same, ap (λ z. z.1) same)

  target-handed :
      (req : ProxyRequest api net phylax) (m : HeaderMap) (now_ms micros : ℕ)
      (live : Live api net phylax) (o : Option UpstreamTarget) (target : UpstreamTarget)
      (sent : HeaderMap)
      → handed_on (on_target api net phylax req m now_ms micros live o).0 ≡ some (target, sent)
      → (o ≡ some target) × (m ≡ sent)
  unfolding handed_on
  target-handed req m now_ms micros live none target sent h = cc
  target-handed req m now_ms micros live (some t) target sent h =
      let (same, kept) =
        pair_inj (t, m) (target, sent)
          (sym (hand_on-handed (get_str api (codes "upgrade") m) m t) ∙ h) in
      (ap (λ x. some x) same, kept)

  defense-handed :
      (st : ProxyState api net phylax) (req : ProxyRequest api net phylax) (m : HeaderMap)
      (now_ms micros : ℕ) (live : Live api net phylax) (o : Outcome net phylax)
      (target : UpstreamTarget) (sent : HeaderMap)
      → handed_on (on_defense api net phylax st req m now_ms micros live o).0 ≡ some (target, sent)
      → (o.0 ≡ none)
        × ((resolve st.router (host_of api net phylax req m) ≡ some target) × (m ≡ sent))
  unfolding handed_on route_request
  defense-handed st req m now_ms micros live (some r, p) target sent h = cc
  defense-handed st req m now_ms micros live (none, p) target sent h = (
    refl,
    target-handed req m now_ms micros (record live { perimeter = p })
        (resolve st.router (host_of api net phylax req m)) target sent h,
  )

  defend-handed :
      (st : ProxyState api net phylax) (req : ProxyRequest api net phylax) (m : HeaderMap)
      (now_ms micros : ℕ) (live : Live api net phylax) (target : UpstreamTarget) (sent : HeaderMap)
      → handed_on (defend_request api net phylax st req m now_ms micros live).0
        ≡ some (target, sent)
      → ((st.security.enable_defense ≡ true)
          → (evaluate_request_full net phylax st.defense
              (defense_request api net phylax req m)
              now_ms
              live.perimeter).0
            ≡ none)
        × ((resolve st.router (host_of api net phylax req m) ≡ some target) × (m ≡ sent))
  unfolding defend_request route_request
  defend-handed st req m now_ms micros live target sent h =
      elim (Bool-cases st.security.enable_defense) [
        | inl e ↦
            let judged =
              evaluate_request_full net phylax st.defense (defense_request api net phylax req m)
                now_ms live.perimeter in
            let (passed, rest) =
              defense-handed st req m now_ms micros live judged target sent
                (rw (e, defend_request) at h) in
            (λ on. passed, rest)
        | inr e ↦ (
          λ on. let clash : true ≡ false = sym on ∙ e in cc,
          target-handed req m now_ms micros live (resolve st.router (host_of api net phylax req m))
              target sent (rw (e, defend_request, route_request) at h),
        )
      ]

  -- What is known of a request that is handed on with these headers to this target.
  pub record IsHandedOn (st : ProxyState api net phylax) (req : ProxyRequest api net phylax)
      (now_ms : ℕ) (live : Live api net phylax) (target : UpstreamTarget) (sent : HeaderMap)
      : Type 0 where
    pub framed : IsFramed api st.framing_guard req.headers
    pub rewritten : sanitize_ingress_headers api (phylax.addr_text req.client_ip) req.headers ≡ sent
    pub no_challenge : try_serve_acme_challenge st.files req.raw_path st.acme_webroot ≡ none
    pub defended :
        st.security.enable_defense ≡ true
        → (is_trusted net phylax st.defense req.client_ip ≡ true)
          ⊎ Passes net phylax (defense_request api net phylax req sent) now_ms live.perimeter
    pub routed : resolve st.router (host_of api net phylax req sent) ≡ some target

  challenge-handed :
      (st : ProxyState api net phylax) (req : ProxyRequest api net phylax) (m : HeaderMap)
      (now_ms micros : ℕ) (live : Live api net phylax) (o : Option Acme.Response)
      (target : UpstreamTarget) (sent : HeaderMap)
      → handed_on (on_challenge api net phylax st req m now_ms micros live o).0
        ≡ some (target, sent)
      → (o ≡ none)
        × (handed_on (defend_request api net phylax st req m now_ms micros live).0
            ≡ some (target, sent))
  unfolding handed_on
  challenge-handed st req m now_ms micros live none target sent h = (refl, h)
  challenge-handed st req m now_ms micros live (some r) target sent h = cc

  evaluate-known :
      (st : ProxyState api net phylax) (req : ProxyRequest api net phylax) (m : HeaderMap)
      (now_ms : ℕ) (live : Live api net phylax)
      → (evaluate_request_full net phylax st.defense
          (defense_request api net phylax req m)
          now_ms
          live.perimeter).0
        ≡ none
      → (is_trusted net phylax st.defense req.client_ip ≡ true)
        ⊎ Passes net phylax (defense_request api net phylax req m) now_ms live.perimeter
  evaluate-known st req m now_ms live =
      evaluate-Passes net phylax st.defense (defense_request api net phylax req m) now_ms
        live.perimeter

  framing-handed :
      (st : ProxyState api net phylax) (req : ProxyRequest api net phylax) (now_ms micros : ℕ)
      (live : Live api net phylax) (check : Check) (target : UpstreamTarget) (sent : HeaderMap)
      → validate_headers api st.framing_guard req.headers req.method ≡ check
      → handed_on (on_framing api net phylax st req now_ms micros live check).0
        ≡ some (target, sent)
      → IsHandedOn st req now_ms live target sent
  unfolding handed_on
  framing-handed st req now_ms micros live (err v) target sent e h = cc
  framing-handed st req now_ms micros live (ok u) target sent e h =
      let m = sanitize_ingress_headers api (phylax.addr_text req.client_ip) req.headers in
      let (unserved, h1) =
        challenge-handed st req m now_ms micros live
          (try_serve_acme_challenge st.files req.raw_path st.acme_webroot) target sent h in
      let (passed, (found, kept)) = defend-handed st req m now_ms micros live target sent h1 in
      record {
        framed = validate_headers-IsFramed api st.framing_guard req.headers req.method e;
        rewritten = kept;
        no_challenge = unserved;
        defended = λ on.
            subst
              (λ k.
                (is_trusted net phylax st.defense req.client_ip ≡ true)
                ⊎ Passes net phylax (defense_request api net phylax req k) now_ms live.perimeter)
              kept (evaluate-known st req m now_ms live (passed on));
        routed =
            subst (λ k. resolve st.router (host_of api net phylax req k) ≡ some target) kept found;
      }

  -- A request that is handed to an upstream, as a plain request or as a WebSocket, passes the framing
  -- guard's checks, is no ACME challenge, goes with the rewritten identity headers to the target
  -- that the router finds for its host, and, where the defense is on, comes from a trusted network
  -- or passes every check of the perimeter.
  pub handle-IsHandedOn :
      (st : ProxyState api net phylax) (req : ProxyRequest api net phylax) (now_ms micros : ℕ)
      (live : Live api net phylax) (target : UpstreamTarget) (sent : HeaderMap)
      → handed_on (handle_proxy_request_with_tls api net phylax st req now_ms micros live).0
        ≡ some (target, sent)
      → IsHandedOn st req now_ms live target sent
  unfolding handle_proxy_request_with_tls
  handle-IsHandedOn st req now_ms micros live target sent h =
      framing-handed st req now_ms micros live
        (validate_headers api st.framing_guard req.headers req.method) target sent refl h
