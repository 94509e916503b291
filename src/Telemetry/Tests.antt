-- ===== src/Telemetry/Tests.antt =====
-- Runs of the ring buffer and of the redaction, and instances of what is proved of them.
use propylea.Prelude.{
  List, Text, [], arith, codes, drop, inl, inr, length, none, refl, some, split, true, ℕ, ◌-◌, ◌∷◌,
  ◌≡◌,
}
use propylea.Telemetry.{
  TelemetryFilter, TelemetryRecord, TelemetryRingBuffer, is_sensitive, new, query,
  sanitize_query_string,
}
use propylea.Telemetry.Ring.{record_all, record_all-newest}
use propylea.Telemetry.Redact.{Agree, sanitize-Agree}

abbrev entry_at : ℕ → TelemetryRecord
entry_at t = record {
  timestamp_ms = t;
  client_ip = codes "203.0.113.7";
  method = codes "GET";
  path = codes "/admin";
  status = 404;
  duration_us = 12;
  upstream_target = none;
  threat_trapped = true;
  threat_category = none;
  user_agent = none;
}

abbrev three_entries : List TelemetryRecord
three_entries = entry_at 1 ∷ entry_at 2 ∷ entry_at 3 ∷ []

abbrev full_buffer : TelemetryRingBuffer
full_buffer = record { max_capacity = 3; records = three_entries }

abbrev by_status : TelemetryFilter
by_status = record {
  client_ip = none;
  status = some 404;
  threats_only = true;
  path_contains = some (codes "adm");
  limit = 10;
}

one_found : query full_buffer by_status ≡ entry_at 3 ∷ entry_at 2 ∷ entry_at 1 ∷ []
unfolding query
one_found = refl

record_all-newest_example :
    (record_all (new 2) three_entries).records ≡ drop (length three_entries - 2) three_entries
record_all-newest_example = record_all-newest 2 three_entries (omega arith)

abbrev with_token : Text
with_token = codes "user=ann&token=s3cret"

sanitize_run : sanitize_query_string with_token ≡ codes "user=ann&token=[REDACTED]"
unfolding sanitize_query_string
sanitize_run = refl

abbrev other_token : Text
other_token = codes "user=ann&token=other"

tokens-Agree : Agree (split b'&' with_token) (split b'&' other_token)
unfolding is_sensitive
tokens-Agree = (inl refl, (inr (refl, refl, refl, refl), tt))

sanitize-Agree_example : sanitize_query_string with_token ≡ sanitize_query_string other_token
sanitize-Agree_example = sanitize-Agree with_token other_token tokens-Agree
