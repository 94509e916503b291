-- ===== src/Proxy/System/Due.antt =====
-- src/proxy/mod.rs: what a request adds to the records that wait for the database.
use propylea.Proxy.Serve.{
  Clock, Contact, Network, answered, check_harvester_promotion, forward_http_request,
  handle_websocket_upgrade, no_handshake, on_contact, on_upgrade, respond, send_failed, unreachable,
}
use propylea.Proxy.{
  Decision, Live, ProxyRequest, ProxyState, challenge, defend_request, defense_request, denied,
  forwarded, handle_proxy_request_with_tls, on_challenge, on_defense, on_framing, on_target,
  refused, route_request, unrecognized_host, upgraded,
}
use propylea.Http.{HeaderApi}
use propylea.Headers.{sanitize_ingress_headers}
use propylea.Framing.{Check, validate_headers}
use propylea.Router.{UpstreamTarget}
use propylea.Acme
use propylea.Acme.{Response, try_serve_acme_challenge}
use propylea.Quarantine.Net.{NetApi}
use propylea.Quarantine.Store.{QuarantineRecord}
use propylea.Defense.Shield.{ShieldApi}
use propylea.Defense.{Outcome, evaluate_request_full}
use propylea.Defense.Due.{bans_due, evaluate-bans_due}
use propylea.Prelude.{
  Bool, Bool-cases, List, Option, Text, [], append-nil, err, if◌then◌else◌, inl, inr, none, ok,
  refl, some, sym, ℕ, ◌&&◌, ◌++◌, ◌==◌, ◌∙◌, ◌≡◌,
}

module _ (api : HeaderApi) (net : NetApi) (phylax : ShieldApi net) where
  open api use {HeaderMap}

  -- The records that wait.
  abbrev pub queue_of : Live api net phylax → List QuarantineRecord
  queue_of live = live.perimeter.queue

  module _ (st : ProxyState api net phylax) (req : ProxyRequest api net phylax) where
    abbrev due_if_defended : HeaderMap → ℕ → List QuarantineRecord
    due_if_defended m now_ms =
        if st.security.enable_defense
        then bans_due net phylax st.defense (defense_request api net phylax req m) now_ms
        else []

    -- The bans that a request calls for: those of the perimeter, where it passes the framing guard,
    -- is no ACME challenge and the defense is on.
    unfoldable pub called_for : ℕ → List QuarantineRecord
    called_for now_ms = elim (validate_headers api st.framing_guard req.headers req.method) [
      | err v ↦ []
      | ok u ↦ elim (try_serve_acme_challenge st.files req.raw_path st.acme_webroot) [
        | some r ↦ []
        | none ↦
            due_if_defended
              (sanitize_ingress_headers api (phylax.addr_text req.client_ip) req.headers) now_ms
      ]
    ]

    target-queue :
        (m : HeaderMap) (now_ms micros : ℕ) (live : Live api net phylax) (o : Option UpstreamTarget)
        → queue_of (on_target api net phylax req m now_ms micros live o).1 ≡ queue_of live
    target-queue m now_ms micros live none = refl
    target-queue m now_ms micros live (some target) = refl

    route-queue :
        (m : HeaderMap) (now_ms micros : ℕ) (live : Live api net phylax)
        → queue_of (route_request api net phylax st req m now_ms micros live).1 ≡ queue_of live
    unfolding route_request
    route-queue m now_ms micros live = target-queue m now_ms micros live _

    defense-queue :
        (m : HeaderMap) (now_ms micros : ℕ) (live : Live api net phylax) (o : Outcome net phylax)
        → queue_of (on_defense api net phylax st req m now_ms micros live o).1 ≡ o.1.queue
    defense-queue m now_ms micros live (none, p) = route-queue m now_ms micros _
    defense-queue m now_ms micros live (some r, p) = refl

    defend-queue :
        (m : HeaderMap) (now_ms micros : ℕ) (live : Live api net phylax)
        → queue_of (defend_request api net phylax st req m now_ms micros live).1
          ≡ queue_of live ++ due_if_defended m now_ms
    unfolding defend_request
    defend-queue m now_ms micros live =
        let asked = defense_request api net phylax req m in
        elim (Bool-cases st.security.enable_defense) [
          | inl on ↦
              rw (on, defend_request)
                (defense-queue m now_ms micros live
                    (evaluate_request_full net phylax st.defense asked now_ms live.perimeter)
                  ∙ evaluate-bans_due net phylax st.defense asked now_ms live.perimeter)
          | inr off ↦
              rw (off, defend_request)
                (route-queue m now_ms micros live ∙ sym (append-nil (queue_of live)))
        ]

    challenge-queue :
        (m : HeaderMap) (now_ms micros : ℕ) (live : Live api net phylax) (o : Option Acme.Response)
        → queue_of (on_challenge api net phylax st req m now_ms micros live o).1
          ≡ queue_of live ++ (elim o [ some r ↦ [] | none ↦ due_if_defended m now_ms ])
    challenge-queue m now_ms micros live none = defend-queue m now_ms micros live
    challenge-queue m now_ms micros live (some r) = sym (append-nil (queue_of live))

    framing-queue :
        (now_ms micros : ℕ) (live : Live api net phylax) (c : Check)
        → queue_of (on_framing api net phylax st req now_ms micros live c).1
          ≡ queue_of live ++ (elim c [
            | err v ↦ []
            | ok u ↦ elim (try_serve_acme_challenge st.files req.raw_path st.acme_webroot) [
              | some r ↦ []
              | none ↦
                  due_if_defended
                    (sanitize_ingress_headers api (phylax.addr_text req.client_ip) req.headers)
                    now_ms
            ]
          ])
    framing-queue now_ms micros live (err v) = sym (append-nil (queue_of live))
    framing-queue now_ms micros live (ok u) = challenge-queue _ now_ms micros live _

    -- A decision adds the bans that the request calls for, behind those that wait.
    pub handle-called_for :
        (now_ms micros : ℕ) (live : Live api net phylax)
        → queue_of (handle_proxy_request_with_tls api net phylax st req now_ms micros live).1
          ≡ queue_of live ++ called_for now_ms
    unfolding handle_proxy_request_with_tls called_for
    handle-called_for now_ms micros live =
        framing-queue now_ms micros live
          (validate_headers api st.framing_guard req.headers req.method)

    module _ (clock : Clock) where
      promotion-queue :
          (on : Bool) (status now_ms : ℕ) (live : Live api net phylax)
          → queue_of (check_harvester_promotion api net phylax on status req now_ms live)
            ≡ queue_of live
      unfolding check_harvester_promotion
      promotion-queue on status now_ms live = elim (Bool-cases (on && status == 404)) [
        | inl missed ↦ rw (missed, check_harvester_promotion) refl
        | inr other ↦ rw (other, check_harvester_promotion) refl
      ]

      contact-queue :
          (peer : Text) (m : HeaderMap) (target : UpstreamTarget) (live : Live api net phylax)
          (c : Contact HeaderMap)
          → queue_of (on_contact api net phylax st peer req m clock target live c).1 ≡ queue_of live
      contact-queue peer m target live unreachable = refl
      contact-queue peer m target live (no_handshake e) = refl
      contact-queue peer m target live (send_failed e) = refl
      contact-queue peer m target live (answered status headers body) =
          promotion-queue st.security.enable_defense status clock.answered_ms live

      upgrade-queue :
          (peer : Text) (m : HeaderMap) (target : UpstreamTarget) (live : Live api net phylax)
          (c : Contact HeaderMap)
          → queue_of (on_upgrade api net phylax st peer req m clock target live c).1 ≡ queue_of live
      upgrade-queue peer m target live unreachable = refl
      upgrade-queue peer m target live (no_handshake e) = refl
      upgrade-queue peer m target live (send_failed e) = refl
      upgrade-queue peer m target live (answered status headers body) = refl

      -- An answer adds none.
      pub respond-queue :
          (nw : Network api net phylax) (d : Decision api net phylax) (live : Live api net phylax)
          → queue_of (respond api net phylax st nw req clock (d, live)).1 ≡ queue_of live
      unfolding handle_websocket_upgrade forward_http_request
      respond-queue nw (refused s b) live = refl
      respond-queue nw (challenge r) live = refl
      respond-queue nw (denied r) live = refl
      respond-queue nw unrecognized_host live = refl
      respond-queue nw (upgraded target m) live = upgrade-queue _ m target live _
      respond-queue nw (forwarded target m) live = contact-queue _ m target live _
