-- ===== src/Quarantine/Store.antt =====
-- src/quarantine/store.rs: the two SQL tables and the statements on them. A row of
-- `quarantined_subnets` is a record, `cidr` the primary key; the audit log stands with its newest
-- event first. What the database answers to each call, success or an error, is a list of outcomes
-- taken one by one (none left means success); a call that fails changes no table.
pub mod Rows
pub mod Bans
pub mod Clearing
pub mod Listing
pub mod History
pub mod Succession
use propylea.Quarantine.Net.{NetApi}
use propylea.Prelude.{
  Bool, List, Option, Result, Text, [], codes, err, false, filter, if◌then◌else◌, is_empty, leb,
  length, ltb, map, none, not, ok, some, take, text_eq, true, ℕ, ◌&&◌, ◌++◌, ◌+◌, ◌==◌, ◌^◌, ◌∷◌,
}

pub record QuarantineRecord : Type 0 where
  pub cidr : Text
  pub ip_version : ℕ
  pub trigger_ip : Text
  pub infraction_type : Text
  pub infraction_count : ℕ
  pub quarantined_at : ℕ
  pub expires_at : ℕ
  pub user_agent : Option Text
  pub active : Bool

pub record QuarantineAuditEvent : Type 0 where
  pub id : ℕ
  pub cidr : Text
  pub event_type : Text
  pub event_ts : ℕ
  pub details : Option Text

pub data QuarantineStoreError : Type 0 where
  sqlite io invalid_network : Text → QuarantineStoreError

pub record QuarantineStore : Type 0 where
  pub rows : List QuarantineRecord
  pub audit : List QuarantineAuditEvent
  pub next_id : ℕ
  pub outcomes : List (Option QuarantineStoreError)

-- The tables that `init_schema` creates, in a database that does not fail.
unfoldable pub in_memory : QuarantineStore
in_memory = record { rows = []; audit = []; next_id = 1; outcomes = [] }

-- What a call on the store answers, and the store after it.
abbrev pub Answer : Type 0 → Type 0
Answer A = Result A QuarantineStoreError × QuarantineStore

abbrev pub next_outcome : List (Option QuarantineStoreError) → Option QuarantineStoreError
next_outcome [] = none
next_outcome (o ∷ os) = o

abbrev pub later_outcomes : List (Option QuarantineStoreError) → List (Option QuarantineStoreError)
later_outcomes [] = []
later_outcomes (o ∷ os) = os

abbrev pub commit : {A : Type 0} → A × QuarantineStore → Answer A
commit (a, st) = (ok a, st)

-- One call: the body runs where the database does not fail.
unfoldable pub transaction :
    {A : Type 0} → QuarantineStore → (QuarantineStore → A × QuarantineStore) → Answer A
transaction st body =
    let begun = record st { outcomes = later_outcomes st.outcomes } in
    elim (next_outcome st.outcomes) [ none ↦ commit (body begun) | some e ↦ (err e, begun) ]

-- `INSERT INTO quarantine_audit_log`
unfoldable pub log_event : Text → Text → ℕ → Text → QuarantineStore → QuarantineStore
log_event event_type cidr event_ts details st = record st {
  next_id = st.next_id + 1;
  audit =
      record {
        id = st.next_id;
        cidr = cidr;
        event_type = event_type;
        event_ts = event_ts;
        details = some details;
      }
      ∷ st.audit;
}

-- `COALESCE`
abbrev pub coalesce : Option Text → Option Text → Option Text
coalesce none b = b
coalesce (some a) b = some a

-- `ON CONFLICT(cidr) DO UPDATE SET`
unfoldable pub merge_row : QuarantineRecord → QuarantineRecord → QuarantineRecord
merge_row old excluded = record old {
  infraction_count = old.infraction_count + excluded.infraction_count;
  expires_at = excluded.expires_at;
  user_agent = coalesce excluded.user_agent old.user_agent;
  active = true;
}

-- `INSERT INTO quarantined_subnets .. ON CONFLICT`
unfoldable pub upsert : QuarantineRecord → List QuarantineRecord → List QuarantineRecord
unfolding merge_row
upsert rec [] = rec ∷ []
upsert rec (row ∷ rows) =
    if text_eq row.cidr rec.cidr then merge_row row rec ∷ rows else row ∷ upsert rec rows

-- The two statements of the transaction.
unfoldable pub insert_ban : QuarantineRecord → QuarantineStore → Unit {0} × QuarantineStore
unfolding upsert log_event
insert_ban rec st =
    let details =
      codes "Trigger IP: " ++ (rec.trigger_ip ++ (codes ", Infraction: " ++ rec.infraction_type)) in
    (
      tt,
      log_event (codes "quarantined") rec.cidr rec.quarantined_at details
          (record st { rows = upsert rec st.rows }),
    )

unfoldable pub record_ban : QuarantineRecord → QuarantineStore → Answer (Unit {0})
unfolding transaction insert_ban
record_ban rec st = transaction st (insert_ban rec)

-- `SELECT cidr FROM quarantined_subnets WHERE active = 1`
unfoldable pub active_cidrs : List QuarantineRecord → List Text
active_cidrs rows = map (λ r. r.cidr) (filter (λ r. r.active) rows)

-- `SELECT cidr .. WHERE cidr = ?1 AND active = 1`
unfoldable pub exact_cidrs : Text → List QuarantineRecord → List Text
exact_cidrs target rows = map (λ r. r.cidr) (filter (λ r. text_eq r.cidr target && r.active) rows)

-- `UPDATE quarantined_subnets SET active = 0 WHERE cidr = ?1`
unfoldable pub deactivate : Text → List QuarantineRecord → List QuarantineRecord
deactivate cidr rows =
    map (λ r. if text_eq r.cidr cidr then record r { active = false } else r) rows

-- The loop of `unban` over what it found.
unfoldable pub deactivate_each : Text → ℕ → List Text → QuarantineStore → QuarantineStore
unfolding deactivate log_event
deactivate_each details now_ms [] st = st
deactivate_each details now_ms (cidr ∷ cidrs) st = deactivate_each details now_ms cidrs (
    log_event (codes "unbanned") cidr now_ms details (record st { rows = deactivate cidr st.rows }))

-- The loop of `unban_all`, which only logs.
unfoldable pub log_each : Text → ℕ → List Text → QuarantineStore → QuarantineStore
unfolding log_event
log_each details now_ms [] st = st
log_each details now_ms (cidr ∷ cidrs) st =
    log_each details now_ms cidrs (log_event (codes "unbanned_all") cidr now_ms details st)

-- `UPDATE quarantined_subnets SET active = 0 WHERE active = 1`
unfoldable pub deactivate_all : List QuarantineRecord → List QuarantineRecord
deactivate_all rows = map (λ r. if r.active then record r { active = false } else r) rows

unfoldable pub clear_active : Text → ℕ → QuarantineStore → ℕ × QuarantineStore
unfolding active_cidrs deactivate_all log_each
clear_active details now_ms st =
    let found = active_cidrs st.rows in
    if length found == 0
    then (0, st)
    else (length found, log_each details now_ms found (record st { rows = deactivate_all st.rows }))

unfoldable pub unban_all : Text → ℕ → QuarantineStore → Answer ℕ
unfolding transaction clear_active
unban_all details now_ms st = transaction st (clear_active details now_ms)

abbrev net_contains : (api : NetApi) → Option api.IpNet → api.IpAddr → Bool
net_contains api none addr = false
net_contains api (some net) addr = api.contains_addr net addr

module _ (api : NetApi) where
  -- The fallback of `unban`: the active networks that hold the address.
  unfoldable pub covering_cidrs : Text → List QuarantineRecord → List Text
  unfolding active_cidrs
  covering_cidrs target rows = elim (api.parse_addr target) [
    | none ↦ []
    | some addr ↦ filter (λ cidr. net_contains api (api.parse_net cidr) addr) (active_cidrs rows)
  ]

  unfoldable pub unban_targets : Text → List QuarantineRecord → List Text
  unfolding exact_cidrs covering_cidrs
  unban_targets target rows =
      let exact = exact_cidrs target rows in
      if not (is_empty exact) then exact else covering_cidrs target rows

  unfoldable pub lift_bans : Text → Text → ℕ → QuarantineStore → List Text × QuarantineStore
  unfolding unban_targets deactivate_each
  lift_bans target details now_ms st =
      let unbanned = unban_targets target st.rows in
      (unbanned, deactivate_each details now_ms unbanned st)

  unfoldable pub unban : Text → Text → ℕ → QuarantineStore → Answer (List Text)
  unfolding transaction lift_bans
  unban target details now_ms st = transaction st (lift_bans target details now_ms)

-- `ORDER BY quarantined_at DESC`
unfoldable pub insert_by_time : QuarantineRecord → List QuarantineRecord → List QuarantineRecord
insert_by_time rec [] = rec ∷ []
insert_by_time rec (row ∷ rows) =
    if leb row.quarantined_at rec.quarantined_at
    then rec ∷ row ∷ rows
    else row ∷ insert_by_time rec rows

unfoldable pub newest_first : List QuarantineRecord → List QuarantineRecord
unfolding insert_by_time
newest_first [] = []
newest_first (row ∷ rows) = insert_by_time row (newest_first rows)

-- `map_quarantine_row`: a count that is no `u32` cannot be read, and the row is left out.
unfoldable pub is_readable : QuarantineRecord → Bool
is_readable row = ltb row.infraction_count (2 ^ 32)

-- `WHERE active = 1 AND expires_at > ?1`
abbrev pub is_enforced : ℕ → QuarantineRecord → Bool
is_enforced now_ms row = row.active && ltb now_ms row.expires_at

unfoldable pub select_active : ℕ → List QuarantineRecord → List QuarantineRecord
unfolding newest_first is_readable
select_active now_ms rows = filter is_readable (newest_first (filter (is_enforced now_ms) rows))

unfoldable pub get_active_bans : ℕ → QuarantineStore → Answer (List QuarantineRecord)
unfolding transaction select_active
get_active_bans now_ms st = transaction st (λ begun. (select_active now_ms begun.rows, begun))

-- `LIMIT ?1` on `limit as i64`: a limit that turns negative is none.
abbrev pub sql_limit : {A : Type 0} → ℕ → List A → List A
sql_limit limit xs = if ltb limit (2 ^ 63) then take limit xs else xs

unfoldable pub get_all_records : ℕ → QuarantineStore → Answer (List QuarantineRecord)
unfolding transaction newest_first is_readable
get_all_records limit st =
    transaction st
      (λ begun. (filter is_readable (sql_limit limit (newest_first begun.rows)), begun))

unfoldable pub get_audit_log : ℕ → QuarantineStore → Answer (List QuarantineAuditEvent)
unfolding transaction
get_audit_log limit st = transaction st (λ begun. (sql_limit limit begun.audit, begun))
