-- ===== src/Telemetry.antt =====
-- src/telemetry.rs: the ring buffer of request records, and the redaction of query strings. The
-- lock makes each method one step on the buffer, which is the state here. Timers are left out.
mod Tests
pub mod Ring
pub mod Query
pub mod Redact
use mathlib.Core.List.{reverse}
use propylea.Prelude.{
  Bool, List, Option, Text, [], any, before_char, codes, contains, contains_char, false, filter,
  if◌then◌else◌, is_empty, join, leb, length, map, none, not, some, split, take, text_eq,
  to_ascii_lowercase, true, ℕ, ◌&&◌, ◌++◌, ◌==◌, ◌∷◌,
}

pub record TelemetryRecord : Type 0 where
  pub timestamp_ms : ℕ
  pub client_ip : Text
  pub method : Text
  pub path : Text
  pub status : ℕ
  pub duration_us : ℕ
  pub upstream_target : Option Text
  pub threat_trapped : Bool
  pub threat_category : Option Text
  pub user_agent : Option Text

pub record TelemetryFilter : Type 0 where
  pub client_ip : Option Text
  pub status : Option ℕ
  pub threats_only : Bool
  pub path_contains : Option Text
  pub limit : ℕ

pub record TelemetryRingBuffer : Type 0 where
  pub max_capacity : ℕ
  pub records : List TelemetryRecord

unfoldable pub new : ℕ → TelemetryRingBuffer
new capacity = record { max_capacity = capacity; records = [] }

-- `pop_front` on an empty deque changes nothing.
abbrev pub pop_front {ℓ} : {A : Type ℓ} → List A → List A
pop_front [] = []
pop_front (x ∷ xs) = xs

unfoldable pub record_entry : TelemetryRingBuffer → TelemetryRecord → TelemetryRingBuffer
record_entry b entry =
    let kept = if leb b.max_capacity (length b.records) then pop_front b.records else b.records in
    record b { records = kept ++ (entry ∷ []) }

abbrev accepts_ip : Option Text → TelemetryRecord → Bool
accepts_ip none r = true
accepts_ip (some ip) r = text_eq r.client_ip ip

abbrev accepts_status : Option ℕ → TelemetryRecord → Bool
accepts_status none r = true
accepts_status (some status) r = r.status == status

abbrev accepts_path : Option Text → TelemetryRecord → Bool
accepts_path none r = true
accepts_path (some sub) r = contains r.path sub

-- The closure of `filter`: each early return of `false` in turn.
unfoldable pub accepts : TelemetryFilter → TelemetryRecord → Bool
accepts f r =
    if f.threats_only && not r.threat_trapped
    then false
    else if not (accepts_ip f.client_ip r)
    then false
    else if not (accepts_status f.status r)
    then false
    else if not (accepts_path f.path_contains r)
    then false
    else true

abbrev pub effective_limit : TelemetryFilter → ℕ
effective_limit f = if f.limit == 0 then 50 else f.limit

unfoldable pub query : TelemetryRingBuffer → TelemetryFilter → List TelemetryRecord
unfolding accepts
query b f = take (effective_limit f) (filter (accepts f) (reverse b.records))

unfoldable pub total_records : TelemetryRingBuffer → ℕ
total_records b = length b.records

unfoldable pub clear : TelemetryRingBuffer → TelemetryRingBuffer
clear b = record b { records = [] }

abbrev pub sensitive_keys : List Text
sensitive_keys =
    codes "token"
    ∷ codes "key"
    ∷ codes "secret"
    ∷ codes "password"
    ∷ codes "auth"
    ∷ codes "code"
    ∷ codes "pin"
    ∷ codes "jwt"
    ∷ []

unfoldable pub is_sensitive : Text → Bool
is_sensitive k = any (contains (to_ascii_lowercase k)) sensitive_keys

abbrev pub redacted : Text
redacted = codes "=[REDACTED]"

-- The closure of `map`, on one part of the query.
unfoldable pub redact_pair : Text → Text
redact_pair pair =
    if contains_char pair b'='
    then (if is_sensitive (before_char b'=' pair) then before_char b'=' pair ++ redacted else pair)
    else pair

unfoldable pub sanitize_query_string : Text → Text
unfolding redact_pair is_sensitive
sanitize_query_string raw =
    if is_empty raw then [] else join (codes "&") (map redact_pair (split b'&' raw))
