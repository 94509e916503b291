-- ===== src/Quarantine/Store/Bans.antt =====
-- src/quarantine/store.rs: what `record_ban`, `unban` and `unban_all` do to the two tables.
use propylea.Quarantine.Net.{NetApi}
use propylea.Prelude.{
  All, Bool, List, Option, Text, [], any, ap, arith, codes, err, false, if◌then◌else◌, length, map,
  none, ok, refl, some, text_eq, true, ℕ, ◌&&◌, ◌++◌, ◌+◌, ◌∙◌, ◌∷◌, ◌≡◌,
}
use propylea.Quarantine.Store.{
  Answer, QuarantineRecord, QuarantineStore, coalesce, deactivate, deactivate_each, insert_ban,
  later_outcomes, lift_bans, log_event, merge_row, record_ban, unban, unban_targets,
}
use propylea.Quarantine.Store.Rows.{find_row, find_row-upsert, merged, transaction-either}

-- The tables did not change.
abbrev pub IsUnchanged : QuarantineStore → QuarantineStore → Type 0
IsUnchanged st st' = (st'.rows ≡ st.rows) × ((st'.audit ≡ st.audit) × (st'.next_id ≡ st.next_id))

-- What a call's body starts from.
abbrev pub begin : QuarantineStore → QuarantineStore
begin st = record st { outcomes = later_outcomes st.outcomes }

-- The row of a CIDR behind a ban of it: where there was none, the ban's record; otherwise the
-- first ban's row, with both counts added up, the time at which the new ban ends, the new
-- User-Agent where there is one, and active.
unfoldable pub after_ban : Option QuarantineRecord → QuarantineRecord → QuarantineRecord
after_ban none rec = rec
after_ban (some first) rec = record {
  cidr = first.cidr;
  ip_version = first.ip_version;
  trigger_ip = first.trigger_ip;
  infraction_type = first.infraction_type;
  infraction_count = first.infraction_count + rec.infraction_count;
  quarantined_at = first.quarantined_at;
  expires_at = rec.expires_at;
  user_agent = elim rec.user_agent [ some agent ↦ some agent | none ↦ first.user_agent ];
  active = true;
}

coalesce_lem : (a b : Option Text) → coalesce a b ≡ (elim a [ some agent ↦ some agent | none ↦ b ])
coalesce_lem none b = refl
coalesce_lem (some agent) b = refl

merged-after_ban :
    (o : Option QuarantineRecord) (rec : QuarantineRecord) → merged o rec ≡ after_ban o rec
unfolding merged merge_row after_ban
merged-after_ban none rec = refl
merged-after_ban (some first) rec =
    ap
      (λ (agent : Option Text). record first {
        infraction_count = first.infraction_count + rec.infraction_count;
        expires_at = rec.expires_at;
        user_agent = agent;
        active = true;
      })
      (coalesce_lem rec.user_agent first.user_agent)

-- What a ban promises: one row under its CIDR, every other CIDR as before, and one audit event,
-- which says of the ban when it was made, by which address and why.
pub RecordsBan : QuarantineRecord → QuarantineStore → Answer (Unit {0}) → Type 0
RecordsBan rec st (ok u, st') =
    ((c : Text)
      → find_row c st'.rows ≡ (
          if text_eq rec.cidr c
          then some (after_ban (find_row rec.cidr st.rows) rec)
          else find_row c st.rows))
    × ((st'.audit
          ≡ record {
            id = st.next_id;
            cidr = rec.cidr;
            event_type = codes "quarantined";
            event_ts = rec.quarantined_at;
            details = some (
                codes "Trigger IP: "
                ++ (rec.trigger_ip ++ (codes ", Infraction: " ++ rec.infraction_type)));
          }
            ∷ st.audit)
        × (st'.next_id ≡ st.next_id + 1))
RecordsBan rec st (err e, st') = IsUnchanged st st'

-- Where the database accepts it, `record_ban` leaves under the record's CIDR the record itself,
-- where there was no row; otherwise the row of the first ban with the two counts added, the new end,
-- the new User-Agent if there is one, and active. The row of every other CIDR is as it was, and one
-- event is logged, with the next id, the ban's time, its trigger address and its reason. Where the
-- database fails, no table changes.
pub record_ban-RecordsBan :
    (rec : QuarantineRecord) (st : QuarantineStore) → RecordsBan rec st (record_ban rec st)
unfolding record_ban insert_ban log_event RecordsBan
record_ban-RecordsBan rec st = transaction-either (RecordsBan rec st) st (insert_ban rec) (
  (
    λ c.
        find_row-upsert c rec st.rows
        ∙ ap (λ (m : QuarantineRecord). if text_eq rec.cidr c then some m else find_row c st.rows)
            (merged-after_ban (find_row rec.cidr st.rows) rec),
    (refl, refl),
  ),
  λ e. (refl, (refl, refl)),
)

-- A row's CIDR is one of these.
abbrev pub is_listed : List Text → QuarantineRecord → Bool
is_listed cidrs row = any (λ c. text_eq row.cidr c) cidrs

abbrev pub lift_ban : List Text → QuarantineRecord → QuarantineRecord
lift_ban cidrs row = if is_listed cidrs row then record row { active = false } else row

deactivate-lift_ban :
    (c : Text) (cs : List Text) (rows : List QuarantineRecord)
    → map (lift_ban cs) (deactivate c rows) ≡ map (lift_ban (c ∷ cs)) rows
unfolding deactivate
deactivate-lift_ban c cs [] = refl
deactivate-lift_ban c cs (row ∷ rows) = ground (arith, deactivate-lift_ban c cs rows)

lift_ban-nil : (rows : List QuarantineRecord) → rows ≡ map (lift_ban []) rows
lift_ban-nil [] = refl
lift_ban-nil (row ∷ rows) = ap (λ l. row ∷ l) (lift_ban-nil rows)

pub deactivate_each-rows :
    (details : Text) (now_ms : ℕ) (cs : List Text) (st : QuarantineStore)
    → (deactivate_each details now_ms cs st).rows ≡ map (lift_ban cs) st.rows
unfolding deactivate_each log_event
deactivate_each-rows details now_ms [] st = lift_ban-nil st.rows
deactivate_each-rows details now_ms (c ∷ cs) st =
    deactivate_each-rows details now_ms cs
      (log_event (codes "unbanned") c now_ms details (record st { rows = deactivate c st.rows }))
    ∙ deactivate-lift_ban c cs st.rows

pub deactivate_each-audit :
    (details : Text) (now_ms : ℕ) (cs : List Text) (st : QuarantineStore)
    → length (deactivate_each details now_ms cs st).audit ≡ length st.audit + length cs
unfolding deactivate_each log_event
deactivate_each-audit details now_ms [] st = omega arith
deactivate_each-audit details now_ms (c ∷ cs) st =
    let st1 =
      log_event (codes "unbanned") c now_ms details (record st { rows = deactivate c st.rows }) in
    omega (arith, deactivate_each-audit details now_ms cs st1)

-- What an answer of `unban` promises.
pub Unbans : QuarantineStore → Answer (List Text) → Type 0
Unbans st (ok cs, st') =
    (st'.rows ≡ map (lift_ban cs) st.rows)
    × (All (λ r. (is_listed cs r && r.active) ≡ false) st'.rows
        × (length st'.audit ≡ length st.audit + length cs))
Unbans st (err e, st') = IsUnchanged st st'

lift_ban-inactive :
    (cs : List Text) (rows : List QuarantineRecord)
    → All (λ r. (is_listed cs r && r.active) ≡ false) (map (lift_ban cs) rows)
lift_ban-inactive cs [] = tt
lift_ban-inactive cs (row ∷ rows) = (ground arith, lift_ban-inactive cs rows)

module _ (api : NetApi) where
  -- `unban` clears the active flag of exactly the rows whose CIDR it answers, so none of those
  -- is active afterwards, changes nothing else in any row and logs one event for each CIDR;
  -- where the database fails, no table changes.
  pub unban-Unbans :
      (target details : Text) (now_ms : ℕ) (st : QuarantineStore)
      → Unbans st (unban api target details now_ms st)
  unfolding unban lift_bans Unbans
  unban-Unbans target details now_ms st =
      let cs = unban_targets api target st.rows in
      transaction-either (Unbans st) st (lift_bans api target details now_ms) (
        (
          deactivate_each-rows details now_ms cs (begin st),
          (
            rw (deactivate_each-rows details now_ms cs (begin st)) (lift_ban-inactive cs st.rows),
            deactivate_each-audit details now_ms cs (begin st),
          ),
        ),
        λ e. (refl, (refl, refl)),
      )
