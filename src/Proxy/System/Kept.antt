-- ===== src/Proxy/System/Kept.antt =====
-- src/proxy/mod.rs: what one request leaves of the state that all requests share.
use propylea.Proxy.Serve.{
  Clock, Contact, Network, answered, check_harvester_promotion, forward_http_request,
  handle_websocket_upgrade, no_handshake, on_contact, on_upgrade, respond, send_failed, unreachable,
}
use propylea.Proxy.{
  Decision, Live, ProxyRequest, ProxyState, challenge, defend_request, defense_request, denied,
  forwarded, handle_proxy_request_with_tls, on_challenge, on_defense, on_framing, on_target,
  refused, route_request, unrecognized_host, upgraded,
}
use propylea.Http.{HeaderApi}
use propylea.Framing.{Check, validate_headers}
use propylea.Router.{UpstreamTarget}
use propylea.Telemetry.{TelemetryRecord, record_entry, total_records}
use propylea.Telemetry.Ring.{record_entry-bounded}
use propylea.Maintenance.{record_threat}
use propylea.Acme
use propylea.Acme.{Response}
use propylea.Quarantine.Net.{NetApi}
use propylea.Quarantine.Store.{QuarantineRecord}
use propylea.Defense.Shield.{DefenseResponse, ShieldApi}
use propylea.Defense.{Outcome, Perimeter, evaluate_request_full}
use propylea.Defense.Answers.{evaluate-Judged}
use propylea.Defense.Refusals.{
  IsRefused, Judged, blocked_bot, canary_trap, day_ban, exploit_payload, shield_denial,
  spoofed_hello,
}
use propylea.Prelude.{
  All, All-append, Bool, Bool-cases, List, Option, Option-cases, Text, codes, err, false,
  if◌then◌else◌, inl, inr, max, none, ok, refl, some, true, u64_mod, ℕ, ◌%◌, ◌&&◌, ◌*◌, ◌++◌, ◌+◌,
  ◌==◌, ◌≡◌, ◌≤◌,
}

-- An active ban for 24 hours.
abbrev pub IsDayBan : QuarantineRecord → Type 0
IsDayBan rec =
    (rec.active ≡ true) × (rec.expires_at ≡ (rec.quarantined_at + 24 * 60 * 60 * 1000) % u64_mod)

module _ (api : HeaderApi) (net : NetApi) (phylax : ShieldApi net) where
  open api use {HeaderMap}

  -- With so many connections open and accepted: the counters say so, the telemetry is within its
  -- capacity (or one entry), and what waits for the database are bans for a day.
  pub record IsKept (opened served capacity : ℕ) (live : Live api net phylax) : Type 0 where
    pub open_counted : live.governor.current_active_connections ≡ opened % u64_mod
    pub served_counted : live.governor.total_connections_served ≡ served % u64_mod
    pub same_capacity : live.telemetry.max_capacity ≡ capacity
    pub bounded : total_records live.telemetry ≤ max live.telemetry.max_capacity 1
    pub day_bans : All IsDayBan live.perimeter.queue

  module _ (opened served capacity : ℕ) where
    recorded-IsKept :
        (live : Live api net phylax) (e : TelemetryRecord)
        → IsKept opened served capacity live
        → IsKept opened served capacity (record live { telemetry = record_entry live.telemetry e })
    unfolding record_entry
    recorded-IsKept live e h = record {
      open_counted = h.open_counted;
      served_counted = h.served_counted;
      same_capacity = h.same_capacity;
      bounded = record_entry-bounded live.telemetry e h.bounded;
      day_bans = h.day_bans;
    }

    threat-IsKept :
        (live : Live api net phylax)
        → IsKept opened served capacity live
        → IsKept opened served capacity (record live { governor = record_threat live.governor })
    unfolding record_threat
    threat-IsKept live h = record {
      open_counted = h.open_counted;
      served_counted = h.served_counted;
      same_capacity = h.same_capacity;
      bounded = h.bounded;
      day_bans = h.day_bans;
    }

    perimeter-IsKept :
        (live : Live api net phylax) (p : Perimeter net phylax)
        → All IsDayBan p.queue
        → IsKept opened served capacity live
        → IsKept opened served capacity (record live { perimeter = p })
    perimeter-IsKept live p bans h = record {
      open_counted = h.open_counted;
      served_counted = h.served_counted;
      same_capacity = h.same_capacity;
      bounded = h.bounded;
      day_bans = bans;
    }

    module _ (st : ProxyState api net phylax) (req : ProxyRequest api net phylax)
        (clock : Clock) where
      abbrev Kept : Live api net phylax → Type 0
      Kept live = IsKept opened served capacity live

      promotion-IsKept :
          (on : Bool) (status now_ms : ℕ) (live : Live api net phylax)
          → Kept live
          → Kept (check_harvester_promotion api net phylax on status req now_ms live)
      unfolding check_harvester_promotion
      promotion-IsKept on status now_ms live h = elim (Bool-cases (on && status == 404)) [
        | inl missed ↦ rw (missed, check_harvester_promotion) (perimeter-IsKept live _ h.day_bans h)
        | inr other ↦ rw (other, check_harvester_promotion) h
      ]

      contact-IsKept :
          (peer : Text) (m : HeaderMap) (target : UpstreamTarget) (live : Live api net phylax)
          (c : Contact HeaderMap)
          → Kept live
          → Kept (on_contact api net phylax st peer req m clock target live c).1
      contact-IsKept peer m target live unreachable h = recorded-IsKept live _ h
      contact-IsKept peer m target live (no_handshake e) h = h
      contact-IsKept peer m target live (send_failed e) h = recorded-IsKept live _ h
      contact-IsKept peer m target live (answered status headers body) h =
          recorded-IsKept _ _
            (promotion-IsKept st.security.enable_defense status clock.answered_ms live h)

      upgrade-IsKept :
          (peer : Text) (m : HeaderMap) (target : UpstreamTarget) (live : Live api net phylax)
          (c : Contact HeaderMap)
          → Kept live
          → Kept (on_upgrade api net phylax st peer req m clock target live c).1
      upgrade-IsKept peer m target live unreachable h = h
      upgrade-IsKept peer m target live (no_handshake e) h = h
      upgrade-IsKept peer m target live (send_failed e) h = h
      upgrade-IsKept peer m target live (answered status headers body) h = recorded-IsKept live _ h

      pub respond-IsKept :
          (nw : Network api net phylax) (d : Decision api net phylax) (live : Live api net phylax)
          → Kept live
          → Kept (respond api net phylax st nw req clock (d, live)).1
      unfolding handle_websocket_upgrade forward_http_request
      respond-IsKept nw (refused s b) live h = h
      respond-IsKept nw (challenge r) live h = h
      respond-IsKept nw (denied r) live h = h
      respond-IsKept nw unrecognized_host live h = h
      respond-IsKept nw (upgraded target m) live h = upgrade-IsKept _ m target live _ h
      respond-IsKept nw (forwarded target m) live h = contact-IsKept _ m target live _ h

      target-IsKept :
          (m : HeaderMap) (now_ms micros : ℕ) (live : Live api net phylax)
          (o : Option UpstreamTarget)
          → Kept live
          → Kept (on_target api net phylax req m now_ms micros live o).1
      target-IsKept m now_ms micros live none h = recorded-IsKept live _ h
      target-IsKept m now_ms micros live (some target) h = h

      route-IsKept :
          (m : HeaderMap) (now_ms micros : ℕ) (live : Live api net phylax)
          → Kept live
          → Kept (route_request api net phylax st req m now_ms micros live).1
      unfolding route_request
      route-IsKept m now_ms micros live h = target-IsKept m now_ms micros live _ h

      day_ban-IsDayBan :
          (m : HeaderMap) (reason : Text) (now_ms : ℕ)
          → All IsDayBan
              (day_ban net phylax st.defense (defense_request api net phylax req m) reason now_ms)
      unfolding day_ban
      day_ban-IsDayBan m reason now_ms =
          let r = defense_request api net phylax req m in
          elim (Bool-cases st.defense.has_manager) [
            | inr e ↦ rw (e, day_ban) tt
            | inl e ↦
                elim (Option-cases (phylax.derive_quarantine_cidr (phylax.addr_text r.client_ip))) [
                  | inl f ↦ rw (e, f, day_ban) tt
                  | inr (cidr, f) ↦ rw (e, f, day_ban) ((refl, refl), tt)
                ]
          ]

      queued-IsDayBan :
          (m : HeaderMap) (reason : Text) (now_ms : ℕ) (before after : List QuarantineRecord)
          → All IsDayBan before
          → after
            ≡ before
              ++ day_ban net phylax st.defense (defense_request api net phylax req m) reason now_ms
          → All IsDayBan after
      queued-IsDayBan m reason now_ms before after h same =
          rw same (All-append _ before _ h (day_ban-IsDayBan m reason now_ms))

      refused-IsDayBan :
          (m : HeaderMap) (now_ms : ℕ) (before after : List QuarantineRecord) (r : DefenseResponse)
          → All IsDayBan before
          → IsRefused net phylax st.defense
              (defense_request api net phylax req m)
              now_ms
              before
              after
              r
          → All IsDayBan after
      refused-IsDayBan m now_ms before after r h (exploit_payload t found a q) =
          queued-IsDayBan m t.threat_category now_ms before after h q
      refused-IsDayBan m now_ms before after r h (spoofed_hello reason profile shows found a q) =
          queued-IsDayBan m (codes "tls_clienthello_spoof") now_ms before after h q
      refused-IsDayBan m now_ms before after r h (canary_trap found a q) =
          queued-IsDayBan m (codes "canary_trap_honeylink") now_ms before after h q
      refused-IsDayBan m now_ms before after r h (shield_denial message shield found a same) =
          rw same h
      refused-IsDayBan m now_ms before after r h (blocked_bot b shield found a same) = rw same h

      Judged-IsDayBan :
          (m : HeaderMap) (now_ms : ℕ) (before : List QuarantineRecord) (o : Outcome net phylax)
          → All IsDayBan before
          → Judged net phylax st.defense (defense_request api net phylax req m) now_ms before o
          → All IsDayBan o.1.queue
      unfolding Judged
      Judged-IsDayBan m now_ms before (none, p) h same = rw same h
      Judged-IsDayBan m now_ms before (some r, p) h refusal =
          refused-IsDayBan m now_ms before p.queue r h refusal

      defense-IsKept :
          (m : HeaderMap) (now_ms micros : ℕ) (live : Live api net phylax) (o : Outcome net phylax)
          → All IsDayBan o.1.queue
          → Kept live
          → Kept (on_defense api net phylax st req m now_ms micros live o).1
      defense-IsKept m now_ms micros live (none, p) bans h =
          route-IsKept m now_ms micros _ (perimeter-IsKept live p bans h)
      defense-IsKept m now_ms micros live (some r, p) bans h =
          perimeter-IsKept _ p bans (recorded-IsKept _ _ (threat-IsKept live h))

      if-IsKept :
          (b : Bool) (x y : Decision api net phylax × Live api net phylax)
          → Kept x.1
          → Kept y.1
          → Kept (if b then x else y).1
      if-IsKept true x y h k = h
      if-IsKept false x y h k = k

      defend-IsKept :
          (m : HeaderMap) (now_ms micros : ℕ) (live : Live api net phylax)
          → Kept live
          → Kept (defend_request api net phylax st req m now_ms micros live).1
      unfolding defend_request
      defend-IsKept m now_ms micros live h =
          let judged =
            evaluate_request_full net phylax st.defense (defense_request api net phylax req m)
              now_ms live.perimeter in
          if-IsKept st.security.enable_defense
            (on_defense api net phylax st req m now_ms micros live judged)
            (route_request api net phylax st req m now_ms micros live)
            (defense-IsKept m now_ms micros live judged
              (Judged-IsDayBan m now_ms live.perimeter.queue judged h.day_bans (
                evaluate-Judged net phylax st.defense (defense_request api net phylax req m) now_ms
                  live.perimeter))
              h)
            (route-IsKept m now_ms micros live h)

      challenge-IsKept :
          (m : HeaderMap) (now_ms micros : ℕ) (live : Live api net phylax)
          (o : Option Acme.Response)
          → Kept live
          → Kept (on_challenge api net phylax st req m now_ms micros live o).1
      challenge-IsKept m now_ms micros live none h = defend-IsKept m now_ms micros live h
      challenge-IsKept m now_ms micros live (some r) h = h

      framing-IsKept :
          (now_ms micros : ℕ) (live : Live api net phylax) (c : Check)
          → Kept live
          → Kept (on_framing api net phylax st req now_ms micros live c).1
      framing-IsKept now_ms micros live (err v) h = threat-IsKept live h
      framing-IsKept now_ms micros live (ok u) h = challenge-IsKept _ now_ms micros live _ h

      pub decide-IsKept :
          (live : Live api net phylax)
          → Kept live
          → Kept
              (handle_proxy_request_with_tls api net phylax st req clock.received_ms
                clock.decided_us live).1
      unfolding handle_proxy_request_with_tls
      decide-IsKept live h =
          framing-IsKept clock.received_ms clock.decided_us live
            (validate_headers api st.framing_guard req.headers req.method) h
