-- ===== src/Defense/Shield.antt =====
-- What src/defense.rs uses of the `phylax` crate, as an interface, and the responses of a refusal.
use propylea.Quarantine.Net.{NetApi}
use propylea.Prelude.{Bool, Option, Text, codes, to_decimal, utf8_len, ℕ, ◌++◌}

-- `phylax::ShieldRequest`, the fields that are set.
pub record ShieldRequest : Type 0 where
  pub shield_ip : Text
  pub target_uri : Text
  pub http_method : Text
  pub shield_agent : Option Text
  pub shield_now_ms : ℕ

pub record BotBlock : Type 0 where
  pub is_automation_tool : Bool
  pub category_name : Text
  pub matched_token : Text

pub record Threat : Type 0 where
  pub threat_category : Text
  pub description : Text

pub record ShieldApi (net : NetApi) : Type 1 where
  pub State : Type 0
  pub addr_text : net.IpAddr → Text
  pub is_loopback : net.IpAddr → Bool
  -- `PayloadGuard::inspect`, `normalize_path` and `derive_quarantine_cidr`
  pub inspect : Text → Text → Option Threat
  pub normalize_path : Text → Text
  pub derive_quarantine_cidr : Text → Option Text
  pub record_and_check : Text → ℕ → State → State
  pub harvest_canary_probe : Option Text → Text → ℕ → State → State
  -- The threat harvester; a promotion is only logged.
  pub record_anomalous_uri : Text → net.IpAddr → ℕ → State → State
  -- The public message of a denial, and the blocking of a bot.
  pub evaluate_perimeter : ShieldRequest → State → Option Text × State
  pub bot_perimeter : Option Text → Text → State → Option BotBlock × State

pub record DefenseResponse : Type 0 where
  pub status : ℕ
  pub content_type : Text
  pub content_length : Text
  pub body : Text

abbrev plain_text : Text
plain_text = codes "text/plain; charset=utf-8"

unfoldable pub stealth_404_response : DefenseResponse
stealth_404_response = record {
  status = 404;
  content_type = plain_text;
  content_length = codes "14";
  body = codes "404 Not Found\n";
}

-- The two responses with status 403; a length is in bytes.
abbrev forbidden : Text → DefenseResponse
forbidden body = record {
  status = 403;
  content_type = plain_text;
  content_length = to_decimal (utf8_len body);
  body = body;
}

unfoldable pub forbidden_bot_response : Text → Text → DefenseResponse
forbidden_bot_response category_name matched_token = forbidden (
    codes "Access Denied: "
    ++ (category_name
        ++ (codes " ("
            ++ (matched_token
                ++ codes ") is prohibited on Sovereign infrastructure (RFC 9309).\n"))))

unfoldable pub forbidden_payload_response : Text → DefenseResponse
forbidden_payload_response description = forbidden (
    codes "Access Denied: Adversarial Exploit Payload ("
    ++ (description ++ codes ") is prohibited on Sovereign infrastructure.\n"))
