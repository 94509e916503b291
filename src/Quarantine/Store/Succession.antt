-- ===== src/Quarantine/Store/Succession.antt =====
-- src/quarantine/store.rs: what the active bans are behind a ban and behind `unban_all`.
use mathlib.Core.Path.{subst}
use mathlib.Core.List.{Mem, mem-cons_self, mem-cons_of_mem}
use propylea.Prelude.{
  All, Bool-cases, List, Option, Text, [], ap, arith, codes, false, filter, inl, inr, length, map,
  mem-filter_of, none, ok, refl, some, text_eq, text_eq_refl, true, ℕ, ◌<◌, ◌==◌, ◌∙◌, ◌∷◌, ◌≡◌,
}
use propylea.Quarantine.Store.{
  QuarantineRecord, QuarantineStore, active_cidrs, clear_active, commit, deactivate_all,
  get_active_bans, insert_ban, is_enforced, is_readable, log_each, log_event, merge_row,
  newest_first, record_ban, select_active, transaction, unban_all, upsert,
}
use propylea.Quarantine.Store.Rows.{find_row, find_row-upsert, merged}
use propylea.Quarantine.Store.Bans.{begin}
use propylea.Quarantine.Store.Clearing.{UnbansAll, clear_active_lem, lifted}
use propylea.Quarantine.Store.Listing.{mem-newest_first, select_active-none}

some_inj : {a b : QuarantineRecord} → some a ≡ some b → a ≡ b
some_inj h = cc

mem-find_row :
    (c : Text) (r : QuarantineRecord) (rows : List QuarantineRecord)
    → find_row c rows ≡ some r
    → Mem r rows
unfolding find_row
mem-find_row c r [] h = cc
mem-find_row c r (row ∷ rows) h = elim (Bool-cases (text_eq row.cidr c)) [
  | inl e ↦
      let first : row ≡ r = some_inj (rw (e, find_row) at h) in
      subst (λ x. Mem x (row ∷ rows)) first mem-cons_self
  | inr e ↦ mem-cons_of_mem row (mem-find_row c r rows (rw (e, find_row) at h))
]

transaction-nil :
    {A : Type 0} (st : QuarantineStore) (body : QuarantineStore → A × QuarantineStore)
    → st.outcomes ≡ []
    → transaction st body ≡ commit (body (begin st))
unfolding transaction
transaction-nil st body h = rw h

log_each-outcomes :
    (details : Text) (now_ms : ℕ) (cs : List Text) (st : QuarantineStore)
    → (log_each details now_ms cs st).outcomes ≡ st.outcomes
unfolding log_each log_event
log_each-outcomes details now_ms [] st = refl
log_each-outcomes details now_ms (c ∷ cs) st =
    log_each-outcomes details now_ms cs (log_event (codes "unbanned_all") c now_ms details st)

clear_active-outcomes :
    (details : Text) (now_ms : ℕ) (st : QuarantineStore)
    → (clear_active details now_ms st).1.outcomes ≡ st.outcomes
unfolding clear_active
clear_active-outcomes details now_ms st =
    let found = active_cidrs st.rows in
    elim (Bool-cases (length found == 0)) [
      | inl e ↦ rw (e, clear_active)
      | inr e ↦
          rw (e, clear_active)
            (log_each-outcomes details now_ms found (record st { rows = deactivate_all st.rows }))
    ]

no_outcomes : (st : QuarantineStore) → st.outcomes ≡ [] → (begin st).outcomes ≡ []
no_outcomes st h = rw h

pub get_active_bans-nil :
    (now_ms : ℕ) (st : QuarantineStore)
    → st.outcomes ≡ []
    → (get_active_bans now_ms st).0 ≡ ok (select_active now_ms st.rows)
unfolding get_active_bans
get_active_bans-nil now_ms st h =
    rw (transaction-nil st (λ begun. (select_active now_ms begun.rows, begun)) h)

lifted-All : (rows : List QuarantineRecord) → All (λ r. r.active ≡ false) (map lifted rows)
lifted-All [] = tt
lifted-All (row ∷ rows) = (refl, lifted-All rows)

-- Where the database does not fail, no ban is active behind `unban_all`, at any time.
pub get_active_bans-unban_all :
    (details : Text) (now_ms later_ms : ℕ) (st : QuarantineStore)
    → st.outcomes ≡ []
    → (get_active_bans later_ms (unban_all details now_ms st).1).0 ≡ ok []
unfolding unban_all UnbansAll
get_active_bans-unban_all details now_ms later_ms st h =
    let cleared = clear_active details now_ms (begin st) in
    let promised = clear_active_lem details now_ms (begin st) in
    rw (transaction-nil st (clear_active details now_ms) h) (
      get_active_bans-nil later_ms cleared.1
        (clear_active-outcomes details now_ms (begin st) ∙ no_outcomes st h)
      ∙ ap (λ l. ok l)
          (select_active-none later_ms cleared.1.rows (rw promised.1.0 (lifted-All st.rows))))

insert_ban-outcomes :
    (rec : QuarantineRecord) (st : QuarantineStore) → (insert_ban rec st).1.outcomes ≡ st.outcomes
unfolding insert_ban log_event
insert_ban-outcomes rec st = refl

insert_ban-ok :
    (rec : QuarantineRecord) (st : QuarantineStore) → (commit (insert_ban rec st)).0 ≡ ok tt
unfolding insert_ban log_event
insert_ban-ok rec st = refl

-- Where the database does not fail, a ban succeeds.
pub record_ban-nil :
    (rec : QuarantineRecord) (st : QuarantineStore)
    → st.outcomes ≡ []
    → ((record_ban rec st).0 ≡ ok tt) × ((record_ban rec st).1.outcomes ≡ [])
unfolding record_ban
record_ban-nil rec st h =
    rw (transaction-nil st (insert_ban rec) h)
      (insert_ban-ok rec (begin st), insert_ban-outcomes rec (begin st) ∙ no_outcomes st h)

mem-insert_ban :
    (rec : QuarantineRecord) (st : QuarantineStore)
    → Mem (merged (find_row rec.cidr st.rows) rec) (insert_ban rec st).1.rows
unfolding insert_ban log_event
mem-insert_ban rec st =
    mem-find_row rec.cidr (merged (find_row rec.cidr st.rows) rec) (upsert rec st.rows)
      (find_row-upsert rec.cidr rec st.rows ∙ rw (text_eq_refl rec.cidr))

merged-is_enforced :
    (now_ms : ℕ) (old : Option QuarantineRecord) (rec : QuarantineRecord)
    → now_ms < rec.expires_at
    → rec.active ≡ true
    → is_enforced now_ms (merged old rec) ≡ true
unfolding merged merge_row
merged-is_enforced now_ms none rec h on = ground arith
merged-is_enforced now_ms (some row) rec h on = ground arith

mem-select_active :
    (now_ms : ℕ) (r : QuarantineRecord) (rows : List QuarantineRecord)
    → Mem r rows
    → is_enforced now_ms r ≡ true
    → is_readable r ≡ true
    → Mem r (select_active now_ms rows)
unfolding select_active
mem-select_active now_ms r rows m h u =
    let kept = filter (is_enforced now_ms) rows in
    mem-filter_of is_readable r (newest_first kept)
      (mem-newest_first r kept (mem-filter_of (is_enforced now_ms) r rows m h)) u

-- Where the database does not fail, a ban that is recorded is among the active bans until it
-- expires, provided the row's count is still a `u32`.
pub get_active_bans-record_ban :
    (rec : QuarantineRecord) (now_ms : ℕ) (st : QuarantineStore)
    → st.outcomes ≡ []
    → now_ms < rec.expires_at
    → rec.active ≡ true
    → is_readable (merged (find_row rec.cidr st.rows) rec) ≡ true
    → (found : List QuarantineRecord) × ((get_active_bans now_ms (record_ban rec st).1).0
        ≡ ok found)
      × Mem (merged (find_row rec.cidr st.rows) rec) found
unfolding record_ban
get_active_bans-record_ban rec now_ms st h later on readable =
    let written = insert_ban rec (begin st) in
    let row = merged (find_row rec.cidr st.rows) rec in
    (
      select_active now_ms written.1.rows,
      rw (transaction-nil st (insert_ban rec) h) (
          get_active_bans-nil now_ms written.1
            (insert_ban-outcomes rec (begin st) ∙ no_outcomes st h)),
      mem-select_active now_ms row written.1.rows (mem-insert_ban rec (begin st))
          (merged-is_enforced now_ms (find_row rec.cidr st.rows) rec later on) readable,
    )
