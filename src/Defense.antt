-- ===== src/Defense.antt =====
-- src/defense.rs: the evaluation of a request at the perimeter. What the `phylax` crate decides
-- and keeps is an interface; the records that are queued for the quarantine are a list, the oldest
-- first. The clock is an argument.
pub mod Shield
pub mod Verdicts
pub mod Refusals
pub mod Answers
pub mod Due
pub mod Boot
mod Tests
use propylea.Defense.Shield.{
  BotBlock, DefenseResponse, ShieldApi, ShieldRequest, Threat, forbidden_bot_response,
  forbidden_payload_response, stealth_404_response,
}
use propylea.Quarantine.Net.{NetApi}
use propylea.Quarantine.Store.{QuarantineRecord}
use propylea.TlsFingerprint.{
  ClientTlsProfile, Verdict, coherent, spoofed, verify_user_agent_coherence,
}
use propylea.Prelude.{
  Bool, List, Option, Text, [], any, codes, false, if◌then◌else◌, none, some, starts_with, text_eq,
  true, u64_mod, ℕ, ◌%◌, ◌&&◌, ◌*◌, ◌++◌, ◌+◌, ◌||◌, ◌∷◌,
}

unfoldable pub is_canary : Text → Bool
is_canary norm_path =
    text_eq norm_path (codes "/_sovereign/canary_trap")
    || starts_with norm_path (codes "/_sovereign/canary_trap/")
    || text_eq norm_path (codes "/decoy/canary")
    || starts_with norm_path (codes "/decoy/canary/")

abbrev pub unwrap_or_empty : Option Text → Text
unwrap_or_empty none = []
unwrap_or_empty (some t) = t

module _ (net : NetApi) (phylax : ShieldApi net) where
  pub record EdgeDefense : Type 0 where
    pub has_manager : Bool
    pub trusted_subnets : List net.IpNet

  pub record Request : Type 0 where
    pub client_ip : net.IpAddr
    pub method : Text
    pub path : Text
    pub query : Option Text
    pub user_agent : Option Text
    pub tls_profile : Option ClientTlsProfile

  pub record Perimeter : Type 0 where
    pub shield : phylax.State
    pub queue : List QuarantineRecord

  abbrev pub Outcome : Type 0
  Outcome = Option DefenseResponse × Perimeter

  unfoldable pub is_trusted : EdgeDefense → net.IpAddr → Bool
  is_trusted d ip = any (λ n. net.contains_addr n ip) d.trusted_subnets

  abbrev quarantine_record : Request → Text → ℕ → Text → QuarantineRecord
  quarantine_record req reason now_ms cidr = record {
    cidr = cidr;
    ip_version = if net.is_ipv4 req.client_ip then 4 else 6;
    trigger_ip = phylax.addr_text req.client_ip;
    infraction_type = reason;
    infraction_count = 1;
    quarantined_at = now_ms;
    expires_at = (now_ms + 24 * 60 * 60 * 1000) % u64_mod;
    user_agent = req.user_agent;
    active = true;
  }

  abbrev queue_for : Request → Text → ℕ → Option Text → Perimeter → Perimeter
  queue_for req reason now_ms none p = p
  queue_for req reason now_ms (some cidr) p = record p {
    queue = p.queue ++ (quarantine_record req reason now_ms cidr ∷ []);
  }

  unfoldable pub notify_quarantine : EdgeDefense → Request → Text → ℕ → Perimeter → Perimeter
  notify_quarantine d req reason now_ms p =
      if d.has_manager
      then queue_for req reason now_ms
          (phylax.derive_quarantine_cidr (phylax.addr_text req.client_ip)) p
      else p

  abbrev record_offence : Request → ℕ → Perimeter → Perimeter
  record_offence req now_ms p = record p {
    shield = phylax.record_and_check (phylax.addr_text req.client_ip) now_ms p.shield;
  }

  abbrev harvest : Option Text → Text → ℕ → Perimeter → Perimeter
  harvest ua message now_ms p = record p {
    shield = phylax.harvest_canary_probe ua message now_ms p.shield;
  }

  -- `if let Some(ua) = user_agent`
  abbrev harvest_agent : Option Text → Text → ℕ → Perimeter → Perimeter
  harvest_agent none message now_ms p = p
  harvest_agent (some ua) message now_ms p = harvest (some ua) message now_ms p

  abbrev on_threat : EdgeDefense → Request → ℕ → Option Threat → Perimeter → Outcome
  on_threat d req now_ms none p = (none, p)
  on_threat d req now_ms (some threat) p = (
    some (forbidden_payload_response threat.description),
    harvest_agent req.user_agent threat.description now_ms
        (notify_quarantine d req threat.threat_category now_ms (record_offence req now_ms p)),
  )

  unfoldable pub check_payload : EdgeDefense → Request → ℕ → Perimeter → Outcome
  unfolding forbidden_payload_response notify_quarantine
  check_payload d req now_ms p =
      on_threat d req now_ms (phylax.inspect req.path (unwrap_or_empty req.query)) p

  abbrev on_verdict : EdgeDefense → Request → ℕ → Verdict → Perimeter → Outcome
  on_verdict d req now_ms coherent p = (none, p)
  on_verdict d req now_ms (spoofed reason) p = (
    some stealth_404_response,
    harvest_agent req.user_agent reason now_ms (
        notify_quarantine d req (codes "tls_clienthello_spoof") now_ms
          (record_offence req now_ms p)),
  )

  abbrev verdict_of : Request → Option ClientTlsProfile → Verdict
  verdict_of req none = coherent
  verdict_of req (some profile) = verify_user_agent_coherence profile req.user_agent

  unfoldable pub check_tls : EdgeDefense → Request → ℕ → Perimeter → Outcome
  unfolding stealth_404_response notify_quarantine verify_user_agent_coherence
  check_tls d req now_ms p = on_verdict d req now_ms (verdict_of req req.tls_profile) p

  unfoldable pub check_canary : EdgeDefense → Request → ℕ → Perimeter → Outcome
  unfolding is_canary stealth_404_response notify_quarantine
  check_canary d req now_ms p =
      if is_canary (phylax.normalize_path req.path)
      then (
        some stealth_404_response,
        notify_quarantine d req (codes "canary_trap_honeylink") now_ms (
            record_offence req now_ms
              (harvest req.user_agent (codes "Tripped invisible canary trap honeylink") now_ms p)),
      )
      else (none, p)

  abbrev shield_request : Request → ℕ → ShieldRequest
  shield_request req now_ms = record {
    shield_ip = phylax.addr_text req.client_ip;
    target_uri = phylax.normalize_path req.path;
    http_method = req.method;
    shield_agent = req.user_agent;
    shield_now_ms = now_ms;
  }

  abbrev on_denial : Request → ℕ → Option Text → Perimeter → Outcome
  on_denial req now_ms none p = (none, p)
  on_denial req now_ms (some message) p =
      (some stealth_404_response, harvest_agent req.user_agent message now_ms p)

  unfoldable pub check_shield : Request → ℕ → Perimeter → Outcome
  unfolding stealth_404_response
  check_shield req now_ms p =
      let judged = phylax.evaluate_perimeter (shield_request req now_ms) p.shield in
      on_denial req now_ms judged.0 (record p { shield = judged.1 })

  abbrev on_bot : Option BotBlock → Perimeter → Outcome
  on_bot none p = (none, p)
  on_bot (some b) p = (
    some (
        if b.is_automation_tool
        then stealth_404_response
        else forbidden_bot_response b.category_name b.matched_token),
    p,
  )

  abbrev is_absent : Option Text → Bool
  is_absent none = true
  is_absent (some t) = false

  -- A client on the loopback without a User-Agent is not asked for.
  unfoldable pub check_bots : Request → Perimeter → Outcome
  unfolding stealth_404_response forbidden_bot_response
  check_bots req p =
      let judged = phylax.bot_perimeter req.user_agent (phylax.normalize_path req.path) p.shield in
      if phylax.is_loopback req.client_ip && is_absent req.user_agent
      then (none, p)
      else on_bot judged.0 (record p { shield = judged.1 })

  -- An answer ends the evaluation.
  abbrev pub or_then : Outcome → (Perimeter → Outcome) → Outcome
  or_then (some r, p) next = (some r, p)
  or_then (none, p) next = next p

  -- What follows each check, on the state that it leaves.
  abbrev pub after_canary : Request → ℕ → Perimeter → Outcome
  after_canary req now_ms p = or_then (check_shield req now_ms p) (check_bots req)

  abbrev pub after_tls : EdgeDefense → Request → ℕ → Perimeter → Outcome
  after_tls d req now_ms p = or_then (check_canary d req now_ms p) (after_canary req now_ms)

  abbrev pub after_payload : EdgeDefense → Request → ℕ → Perimeter → Outcome
  after_payload d req now_ms p = or_then (check_tls d req now_ms p) (after_tls d req now_ms)

  unfoldable pub evaluate_request_full : EdgeDefense → Request → ℕ → Perimeter → Outcome
  unfolding is_trusted check_payload check_tls check_canary check_shield check_bots
  evaluate_request_full d req now_ms p =
      if is_trusted d req.client_ip
      then (none, p)
      else or_then (check_payload d req now_ms p) (after_payload d req now_ms)
