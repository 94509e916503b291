-- ===== src/Quarantine/Store/History.antt =====
-- src/quarantine/store.rs: a database through any sequence of calls.

use propylea.Quarantine.Net.{NetApi}
use propylea.Prelude.{
  Bool-cases, List, Text, [], arith, codes, false, if◌then◌else◌, inl, inr, length, refl, text_eq,
  ℕ, ◌+◌, ◌==◌, ◌∷◌, ◌≡◌,
}
use propylea.Quarantine.Store.{
  QuarantineAuditEvent, QuarantineRecord, QuarantineStore, active_cidrs, clear_active, deactivate,
  deactivate_all, deactivate_each, in_memory, insert_ban, lift_bans, log_each, log_event,
  record_ban, unban, unban_all, unban_targets, upsert,
}
use propylea.Quarantine.Store.Rows.{IsKeyed, map-IsKeyed, transaction-either, upsert-IsKeyed}
use propylea.Quarantine.Store.Bans.{begin}

-- The log's identifiers count down from the newest, without a gap.
abbrev pub IsNumbered : ℕ → List QuarantineAuditEvent → Type 0
IsNumbered n [] = n ≡ 1
IsNumbered n (e ∷ events) = (n ≡ e.id + 1) × IsNumbered e.id events

-- The primary key holds and the log is numbered.
pub record IsConsistent (st : QuarantineStore) : Type 0 where
  pub rows_keyed : IsKeyed st.rows
  pub audit_numbered : IsNumbered st.next_id st.audit

module _ (api : NetApi) where
  -- The calls, each on any arguments: a read only takes an outcome.
  pub data Step : QuarantineStore → QuarantineStore → Type 0 where
    step_record_ban :
        {st : QuarantineStore} (rec : QuarantineRecord) → Step st (record_ban rec st).1
    step_unban :
        {st : QuarantineStore} (target details : Text) (now_ms : ℕ)
        → Step st (unban api target details now_ms st).1
    step_unban_all :
        {st : QuarantineStore} (details : Text) (now_ms : ℕ)
        → Step st (unban_all details now_ms st).1
    step_read : {st : QuarantineStore} → Step st (begin st)

  pub data Reaches (st : QuarantineStore) : QuarantineStore → Type 0 where
    at_start : Reaches st st
    and_then : {mid last : QuarantineStore} → Reaches st mid → Step mid last → Reaches st last

log_event-IsConsistent :
    (event_type cidr : Text) (event_ts : ℕ) (details : Text) (st : QuarantineStore)
    → IsConsistent st
    → IsConsistent (log_event event_type cidr event_ts details st)
unfolding log_event
log_event-IsConsistent event_type cidr event_ts details st h = record {
  rows_keyed = h.rows_keyed;
  audit_numbered = (refl, h.audit_numbered);
}

deactivate_each-IsConsistent :
    (details : Text) (now_ms : ℕ) (cs : List Text) (st : QuarantineStore)
    → IsConsistent st
    → IsConsistent (deactivate_each details now_ms cs st)
unfolding deactivate_each deactivate
deactivate_each-IsConsistent details now_ms [] st h = h
deactivate_each-IsConsistent details now_ms (c ∷ cs) st h =
    let st1 = record st { rows = deactivate c st.rows } in
    deactivate_each-IsConsistent details now_ms cs
      (log_event (codes "unbanned") c now_ms details st1)
      (log_event-IsConsistent (codes "unbanned") c now_ms details st1 (record {
        rows_keyed =
            map-IsKeyed (λ r. if text_eq r.cidr c then record r { active = false } else r) st.rows
              (λ r. ground arith) h.rows_keyed;
        audit_numbered = h.audit_numbered;
      }))

log_each-IsConsistent :
    (details : Text) (now_ms : ℕ) (cs : List Text) (st : QuarantineStore)
    → IsConsistent st
    → IsConsistent (log_each details now_ms cs st)
unfolding log_each
log_each-IsConsistent details now_ms [] st h = h
log_each-IsConsistent details now_ms (c ∷ cs) st h =
    log_each-IsConsistent details now_ms cs (log_event (codes "unbanned_all") c now_ms details st)
      (log_event-IsConsistent (codes "unbanned_all") c now_ms details st h)

clear_active-IsConsistent :
    (details : Text) (now_ms : ℕ) (st : QuarantineStore)
    → IsConsistent st
    → IsConsistent (clear_active details now_ms st).1
unfolding clear_active deactivate_all
clear_active-IsConsistent details now_ms st h =
    elim (Bool-cases (length (active_cidrs st.rows) == 0)) [
      | inl e ↦ rw (e, clear_active) h
      | inr e ↦
          rw (e, clear_active)
            (log_each-IsConsistent details now_ms (active_cidrs st.rows)
              (record st { rows = deactivate_all st.rows })
              (record {
                rows_keyed =
                    map-IsKeyed (λ r. if r.active then record r { active = false } else r) st.rows
                      (λ r. ground arith) h.rows_keyed;
                audit_numbered = h.audit_numbered;
              }))
    ]

begin-IsConsistent : (st : QuarantineStore) → IsConsistent st → IsConsistent (begin st)
begin-IsConsistent st h = record { rows_keyed = h.rows_keyed; audit_numbered = h.audit_numbered }

module _ (api : NetApi) where
  pub Step-IsConsistent :
      (st st' : QuarantineStore) → Step api st st' → IsConsistent st → IsConsistent st'
  unfolding record_ban insert_ban unban lift_bans unban_all
  Step-IsConsistent st _ (step_record_ban rec) h =
      transaction-either (λ a. IsConsistent a.1) st (insert_ban rec)
        (
          log_event-IsConsistent (codes "quarantined") rec.cidr rec.quarantined_at _
              (record (begin st) { rows = upsert rec st.rows })
              (record {
                rows_keyed = upsert-IsKeyed rec st.rows h.rows_keyed;
                audit_numbered = h.audit_numbered;
              }),
          λ e. begin-IsConsistent st h,
        )
  Step-IsConsistent st _ (step_unban target details now_ms) h =
      transaction-either (λ a. IsConsistent a.1) st (lift_bans api target details now_ms)
        (
          deactivate_each-IsConsistent details now_ms (unban_targets api target st.rows) (begin st)
              (begin-IsConsistent st h),
          λ e. begin-IsConsistent st h,
        )
  Step-IsConsistent st _ (step_unban_all details now_ms) h =
      transaction-either (λ a. IsConsistent a.1) st (clear_active details now_ms)
        (
          clear_active-IsConsistent details now_ms (begin st) (begin-IsConsistent st h),
          λ e. begin-IsConsistent st h,
        )
  Step-IsConsistent st _ step_read h = begin-IsConsistent st h

  -- In every database that any sequence of bans and unbans reaches from the empty one, failed
  -- calls included, no two rows share a CIDR and the audit log's identifiers are consecutive.
  pub Reaches-IsConsistent : (st : QuarantineStore) → Reaches api in_memory st → IsConsistent st
  unfolding in_memory
  Reaches-IsConsistent st at_start = record { rows_keyed = tt; audit_numbered = refl }
  Reaches-IsConsistent st (and_then {mid = mid} before step) =
      Step-IsConsistent mid st step (Reaches-IsConsistent mid before)
