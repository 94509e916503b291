-- ===== src/Telemetry/Query.antt =====
-- What `query` answers, against a description of the filter.
use mathlib.Core.List.{reverse, Mem, mem-reverse}
use propylea.Prelude.{
  ==_iff, All, All-take, Bool-cases, List, Option, Text, [], ap, arith, contains, eq→text_eq,
  filter, inl, inr, length, length-take, mem-filter_of, none, refl, some, suc, take, text_eq→eq,
  true, zero, ℕ, ◌<◌, ◌∷◌, ◌≡◌, ◌≤◌,
}
use propylea.Telemetry.{
  TelemetryFilter, TelemetryRecord, TelemetryRingBuffer, accepts, accepts_ip, accepts_path,
  accepts_status, effective_limit, query,
}

-- The meaning of a filter, field by field.
pub record Matches (f : TelemetryFilter) (r : TelemetryRecord) : Type 0 where
  pub trapped : f.threats_only ≡ true → r.threat_trapped ≡ true
  pub same_ip : (ip : Text) → f.client_ip ≡ some ip → r.client_ip ≡ ip
  pub same_status : (s : ℕ) → f.status ≡ some s → r.status ≡ s
  pub path : (sub : Text) → f.path_contains ≡ some sub → contains r.path sub ≡ true

accepts-Matches : (f : TelemetryFilter) (r : TelemetryRecord) → accepts f r ≡ true → Matches f r
unfolding accepts
accepts-Matches f r h = record {
  trapped = λ t. ground arith;
  same_ip = λ ip e. ground (arith, text_eq→eq r.client_ip ip);
  same_status = λ s e. ground arith;
  path = λ sub e. ground arith;
}

ip-accepts :
    (o : Option Text) (r : TelemetryRecord)
    → ((ip : Text) → o ≡ some ip → r.client_ip ≡ ip)
    → accepts_ip o r ≡ true
ip-accepts none r h = refl
ip-accepts (some ip) r h = eq→text_eq r.client_ip ip (h ip refl)

status-accepts :
    (o : Option ℕ) (r : TelemetryRecord)
    → ((s : ℕ) → o ≡ some s → r.status ≡ s)
    → accepts_status o r ≡ true
status-accepts none r h = refl
status-accepts (some s) r h = (==_iff r.status s).1 (h s refl)

path-accepts :
    (o : Option Text) (r : TelemetryRecord)
    → ((p : Text) → o ≡ some p → contains r.path p ≡ true)
    → accepts_path o r ≡ true
path-accepts none r h = refl
path-accepts (some p) r h = h p refl

Matches-accepts : (f : TelemetryFilter) (r : TelemetryRecord) → Matches f r → accepts f r ≡ true
unfolding accepts
Matches-accepts f r m = ground (
  arith,
  m.trapped,
  ip-accepts f.client_ip r m.same_ip,
  status-accepts f.status r m.same_status,
  path-accepts f.path_contains r m.path,
)

filter-Matches :
    (f : TelemetryFilter) (rs : List TelemetryRecord) → All (Matches f) (filter (accepts f) rs)
filter-Matches f [] = tt
filter-Matches f (r ∷ rs) = elim (Bool-cases (accepts f r)) [
  | inl h ↦ rw h (accepts-Matches f r h, filter-Matches f rs)
  | inr h ↦ rw h (filter-Matches f rs)
]

-- A query answers only records that match the filter in every field that it sets, and at most
-- `limit` of them (50 if the limit is zero).
pub query-Matches :
    (b : TelemetryRingBuffer) (f : TelemetryFilter)
    → All (Matches f) (query b f) × (length (query b f) ≤ effective_limit f)
unfolding query
query-Matches b f = (
  All-take (Matches f) (effective_limit f) _ (filter-Matches f (reverse b.records)),
  omega (arith, length-take (effective_limit f) (filter (accepts f) (reverse b.records))),
)

take_all {ℓ} : {A : Type ℓ} (n : ℕ) (xs : List A) → length (take n xs) < n → take n xs ≡ xs
take_all zero xs h = elim h [ ]
take_all (suc n) [] h = refl
take_all (suc n) (x ∷ xs) h = ap (◌∷◌ x) (take_all n xs (omega arith))

-- An answer that is shorter than the limit is complete: every matching record of the buffer is
-- in it.
pub query_complete :
    (b : TelemetryRingBuffer) (f : TelemetryFilter) (r : TelemetryRecord)
    → length (query b f) < effective_limit f
    → Mem r b.records
    → Matches f r
    → Mem r (query b f)
unfolding query
query_complete b f r h m match =
    rw (take_all (effective_limit f) (filter (accepts f) (reverse b.records)) h) (
      mem-filter_of (accepts f) r (reverse b.records) (mem-reverse.1 m) (Matches-accepts f r match))
