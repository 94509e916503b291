-- ===== src/Crucible/Tests.antt =====
-- Runs of the gate on test addresses, and instances of what is proved of it.
use propylea.Http.Assoc.{assoc_headers}
use propylea.Quarantine.Net.{NetApi}
use propylea.Quarantine.Store.{QuarantineRecord, in_memory, is_enforced, next_outcome, record_ban}
use propylea.Quarantine.Store.Rows.{find_row}
use propylea.Crucible.{
  GateApi, GateContext, GateRequest, enforce, gate_record, handle_crucible_request,
  scanner_response,
}
use propylea.Sanitize.{scrub_ansi_and_control}
use propylea.Crucible.Bans.{
  answered_by, enforce-expired, handle-infraction, infraction_of, is_inspected, row_after,
}
use propylea.Prelude.{
  Text, [], arith, codes, false, if◌then◌else◌, ltb, none, refl, some, text_eq, true, ℕ, ◌+◌, ◌∷◌,
  ◌≡◌,
}

abbrev text_net : NetApi
text_net = record {
  IpNet = Text;
  IpAddr = Text;
  parse_net = λ s. some s;
  parse_addr = λ s. some s;
  contains_addr = λ n a. text_eq n a;
  same_addr = text_eq;
  host_net = λ a. a;
  new_net = λ a prefix. some a;
  net_addr = λ n. n;
  is_ipv4 = λ a. true;
  net_text = λ n. n;
}

-- A gate that knows one scanner, and counts the offences.
abbrev one_scanner : GateApi text_net
one_scanner = record {
  Engine = ℕ;
  addr_text = λ a. a;
  derive_quarantine_cidr = λ a. none;
  is_quarantined = λ a now n. ltb 2 n;
  record_and_check = λ a now n. n + 1;
  inspect = λ path query. none;
  bot_perimeter = λ ua path. if text_eq ua (codes "nikto") then some (codes "Scanner") else none;
}

abbrev scan : GateRequest assoc_headers text_net one_scanner
scan = record {
  client_ip = codes "203.0.113.7";
  raw_path = codes "/.git/config";
  query = none;
  headers = (codes "user-agent", codes "nikto") ∷ [];
}

abbrev calm : GateContext assoc_headers text_net one_scanner
calm = record { quarantine = 0; store = in_memory }

abbrev now_ms : ℕ
now_ms = 1_700_000_000_000

scan_banned :
    (handle_crucible_request assoc_headers text_net one_scanner scan now_ms calm).0
    ≡ scanner_response
unfolding handle_crucible_request scrub_ansi_and_control
scan_banned = refl

handle-infraction_example :
    handle_crucible_request assoc_headers text_net one_scanner scan now_ms calm ≡ (
      if is_inspected assoc_headers text_net one_scanner scan now_ms calm
      then answered_by assoc_headers text_net one_scanner scan now_ms calm
          (infraction_of assoc_headers text_net one_scanner scan)
      else if one_scanner.is_quarantined (codes "203.0.113.7") now_ms calm.quarantine
      then ((403, codes "{\"error\":\"quarantined\"}\n"), calm)
      else ((400, codes "{\"error\":\"framing_conflict\"}\n"), calm))
handle-infraction_example = handle-infraction assoc_headers text_net one_scanner scan now_ms calm

abbrev scan_row : QuarantineRecord
scan_row = record {
  cidr = codes "203.0.113.7/32";
  ip_version = 4;
  trigger_ip = codes "203.0.113.7";
  infraction_type = codes "bot_scanner:Scanner";
  infraction_count = 1;
  quarantined_at = 1_700_000_000;
  expires_at = 1_700_003_600;
  user_agent = some (codes "nikto");
  active = true;
}

scan_row_written :
    row_after assoc_headers text_net one_scanner scan (codes "bot_scanner:Scanner") now_ms calm
    ≡ some scan_row
unfolding enforce gate_record record_ban find_row scrub_ansi_and_control in_memory
scan_row_written = refl

database_accepts : next_outcome calm.store.outcomes ≡ none
unfolding in_memory
database_accepts = refl

enforce-expired_example : is_enforced now_ms scan_row ≡ false
enforce-expired_example =
    enforce-expired assoc_headers text_net one_scanner scan (codes "bot_scanner:Scanner") now_ms
      now_ms calm scan_row (omega arith) (omega arith) database_accepts scan_row_written
