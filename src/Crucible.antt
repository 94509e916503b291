-- ===== src/Crucible.antt =====
-- src/crucible.rs: the test gate's evaluation of a request. What the `phylax` crate decides and keeps
-- is an interface; the store is that of src/quarantine/store.rs. Listener, time limits and what is
-- printed are left out; the clock is an argument.
pub mod Bans
mod Tests
use propylea.Http.{HeaderApi, contains_key, get_str}
use propylea.Sanitize.{max_banner_bytes, scrub_ansi_and_control}
use propylea.Quarantine.Net.{NetApi}
use propylea.Quarantine.Store.{QuarantineRecord, QuarantineStore, record_ban}
use propylea.Prelude.{
  Bool, Option, Text, [], codes, if◌then◌else◌, none, some, starts_with, true, u64_mod,
  unwrap_or_text, ℕ, ◌%◌, ◌&&◌, ◌++◌, ◌+◌, ◌/◌, ◌||◌,
}

pub record GateApi (net : NetApi) : Type 1 where
  pub Engine : Type 0
  pub addr_text : net.IpAddr → Text
  pub derive_quarantine_cidr : Text → Option Text
  pub is_quarantined : Text → ℕ → Engine → Bool
  pub record_and_check : Text → ℕ → Engine → Engine
  -- The category of a payload threat, and the `Debug` text of a blocked bot's category.
  pub inspect : Text → Text → Option Text
  pub bot_perimeter : Text → Text → Option Text

-- The status and the body of a response.
abbrev pub GateResponse : Type 0
GateResponse = ℕ × Text

abbrev pub quarantined_response : GateResponse
quarantined_response = (403, codes "{\"error\":\"quarantined\"}\n")

abbrev pub framing_response : GateResponse
framing_response = (400, codes "{\"error\":\"framing_conflict\"}\n")

abbrev pub payload_response : GateResponse
payload_response = (403, codes "{\"error\":\"forbidden_payload\"}\n")

abbrev pub scanner_response : GateResponse
scanner_response = (403, codes "{\"error\":\"hostile_scanner\"}\n")

abbrev pub decoy_response : GateResponse
decoy_response = (404, codes "{\"error\":\"not_found\"}\n")

abbrev pub healthy_response : GateResponse
healthy_response = (200, codes "{\"status\":\"healthy\",\"crucible\":\"nominal\"}\n")

unfoldable pub is_honeypot : Text → Bool
is_honeypot safe_path =
    starts_with safe_path (codes "/wp-")
    || starts_with safe_path (codes "/.env")
    || starts_with safe_path (codes "/.git")
    || starts_with safe_path (codes "/phpmyadmin")

module _ (api : HeaderApi) (net : NetApi) (gate : GateApi net) where
  pub record GateContext : Type 0 where
    pub quarantine : gate.Engine
    pub store : QuarantineStore

  pub record GateRequest : Type 0 where
    pub client_ip : net.IpAddr
    pub raw_path : Text
    pub query : Option Text
    pub headers : api.HeaderMap

  abbrev pub ip_text : GateRequest → Text
  ip_text req = gate.addr_text req.client_ip

  abbrev pub safe_path_of : GateRequest → Text
  safe_path_of req = scrub_ansi_and_control req.raw_path 1024

  abbrev pub safe_agent_of : GateRequest → Text
  safe_agent_of req =
      scrub_ansi_and_control (unwrap_or_text [] (get_str api (codes "user-agent") req.headers))
        max_banner_bytes

  -- The record of the three bans: its times are in seconds.
  unfoldable pub gate_record : GateRequest → Text → ℕ → QuarantineRecord
  gate_record req infraction now_ms = record {
    cidr = unwrap_or_text (ip_text req ++ codes "/32") (gate.derive_quarantine_cidr (ip_text req));
    ip_version = if net.is_ipv4 req.client_ip then 4 else 6;
    trigger_ip = ip_text req;
    infraction_type = infraction;
    infraction_count = 1;
    quarantined_at = now_ms / 1000;
    expires_at = (now_ms / 1000 + 3600) % u64_mod;
    user_agent = some (safe_agent_of req);
    active = true;
  }

  -- The database's answer to the write is discarded.
  unfoldable pub enforce : GateRequest → Text → ℕ → GateContext → GateContext
  unfolding gate_record record_ban
  enforce req infraction now_ms ctx = record {
    store = (record_ban (gate_record req infraction now_ms) ctx.store).1;
    quarantine = gate.record_and_check (ip_text req) now_ms ctx.quarantine;
  }

  abbrev pub is_conflicting : GateRequest → Bool
  is_conflicting req =
      contains_key api (codes "transfer-encoding") req.headers
      && contains_key api (codes "content-length") req.headers

  -- The checks from the last to the first, each with what follows it.
  abbrev check_honeypot : GateRequest → ℕ → GateContext → GateResponse × GateContext
  check_honeypot req now_ms ctx =
      if is_honeypot (safe_path_of req)
      then (decoy_response, enforce req (codes "honeypot_decoy_breach") now_ms ctx)
      else (healthy_response, ctx)

  abbrev on_bot : GateRequest → ℕ → GateContext → Option Text → GateResponse × GateContext
  on_bot req now_ms ctx none = check_honeypot req now_ms ctx
  on_bot req now_ms ctx (some category) =
      (scanner_response, enforce req (codes "bot_scanner:" ++ category) now_ms ctx)

  abbrev on_payload : GateRequest → ℕ → GateContext → Option Text → GateResponse × GateContext
  on_payload req now_ms ctx none =
      on_bot req now_ms ctx (gate.bot_perimeter (safe_agent_of req) (safe_path_of req))
  on_payload req now_ms ctx (some category) =
      (payload_response, enforce req (codes "payload_threat:" ++ category) now_ms ctx)

  unfoldable pub handle_crucible_request :
      GateRequest → ℕ → GateContext → GateResponse × GateContext
  unfolding enforce is_honeypot
  handle_crucible_request req now_ms ctx =
      if gate.is_quarantined (ip_text req) now_ms ctx.quarantine
      then (quarantined_response, ctx)
      else if is_conflicting req
      then (framing_response, ctx)
      else on_payload req now_ms ctx (gate.inspect (safe_path_of req) (unwrap_or_text [] req.query))
