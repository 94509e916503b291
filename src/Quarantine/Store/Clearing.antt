-- ===== src/Quarantine/Store/Clearing.antt =====
-- src/quarantine/store.rs: what `unban_all` does to the two tables.
use propylea.Prelude.{
  ==_iff, Bool, Bool-cases, List, Text, [], ap, arith, codes, err, false, filter, if◌then◌else◌,
  inl, inr, length, map, ok, refl, suc, sym, true, ℕ, ◌+◌, ◌==◌, ◌∙◌, ◌∷◌, ◌≡◌,
}
use propylea.Quarantine.Store.{
  Answer, QuarantineRecord, QuarantineStore, active_cidrs, clear_active, commit, deactivate_all,
  log_each, log_event, unban_all,
}
use propylea.Quarantine.Store.Rows.{transaction-either}
use propylea.Quarantine.Store.Bans.{IsUnchanged, begin}

-- The row, no longer active, and otherwise as it was.
abbrev pub lifted : QuarantineRecord → QuarantineRecord
lifted r = record r { active = false }

-- What an answer of `unban_all` promises.
unfoldable pub UnbansAll : QuarantineStore → Answer ℕ → Type 0
UnbansAll st (ok n, st') =
    (n ≡ length (filter (λ r. r.active) st.rows))
    × ((st'.rows ≡ map lifted st.rows) × (length st'.audit ≡ length st.audit + n))
UnbansAll st (err e, st') = IsUnchanged st st'

log_each_lem :
    (details : Text) (now_ms : ℕ) (cs : List Text) (st : QuarantineStore)
    → ((log_each details now_ms cs st).rows ≡ st.rows)
      × (length (log_each details now_ms cs st).audit ≡ length st.audit + length cs)
unfolding log_each log_event
log_each_lem details now_ms [] st = (refl, omega arith)
log_each_lem details now_ms (c ∷ cs) st =
    let st1 = log_event (codes "unbanned_all") c now_ms details st in
    let (same, longer) = log_each_lem details now_ms cs st1 in (same, omega (arith, longer))

lifted-inactive : (r : QuarantineRecord) → r.active ≡ false → r ≡ lifted r
lifted-inactive r h = ap (λ (b : Bool). record r { active = b }) h

row-lifted :
    (b : Bool) (r : QuarantineRecord) → r.active ≡ b → (if b then lifted r else r) ≡ lifted r
row-lifted true r h = refl
row-lifted false r h = lifted-inactive r h

deactivate_all-lifted : (rows : List QuarantineRecord) → deactivate_all rows ≡ map lifted rows
unfolding deactivate_all
deactivate_all-lifted [] = refl
deactivate_all-lifted (row ∷ rows) =
    ap (λ x. x ∷ deactivate_all rows) (row-lifted row.active row refl)
    ∙ ap (λ l. lifted row ∷ l) (deactivate_all-lifted rows)

length-cidrs : (rows : List QuarantineRecord) → length (map (λ r. r.cidr) rows) ≡ length rows
length-cidrs [] = refl
length-cidrs (row ∷ rows) = ap suc (length-cidrs rows)

length-active_cidrs :
    (rows : List QuarantineRecord)
    → length (active_cidrs rows) ≡ length (filter (λ r. r.active) rows)
unfolding active_cidrs
length-active_cidrs rows = length-cidrs (filter (λ r. r.active) rows)

none_active :
    (rows : List QuarantineRecord) → length (active_cidrs rows) ≡ 0 → rows ≡ map lifted rows
unfolding active_cidrs
none_active [] h = refl
none_active (row ∷ rows) h = elim (Bool-cases row.active) [
  | inl e ↦ let one_more = rw (e, active_cidrs) at h in absurd (omega (arith, one_more))
  | inr e ↦
      ap (λ l. row ∷ l) (none_active rows (rw (e, active_cidrs) at h))
      ∙ ap (λ r. r ∷ map lifted rows) (lifted-inactive row e)
]

pub clear_active_lem :
    (details : Text) (now_ms : ℕ) (st : QuarantineStore)
    → UnbansAll st (commit (clear_active details now_ms st))
unfolding clear_active UnbansAll
clear_active_lem details now_ms st =
    let found = active_cidrs st.rows in
    let cleared = record st { rows = deactivate_all st.rows } in
    let counted = length-active_cidrs st.rows in
    elim (Bool-cases (length found == 0)) [
      | inl e ↦
          let none_found = (==_iff (length found) 0).0 e in
          rw (e, clear_active)
            (sym none_found ∙ counted, (none_active st.rows none_found, omega arith))
      | inr e ↦
          let (same, longer) = log_each_lem details now_ms found cleared in
          rw (e, clear_active) (counted, (same ∙ deactivate_all-lifted st.rows, longer))
    ]

-- `unban_all` answers how many rows were active, clears the flag of every row, changes nothing else
-- in any row and logs as many events as it answers. Where the database fails, no table changes.
pub unban_all-UnbansAll :
    (details : Text) (now_ms : ℕ) (st : QuarantineStore)
    → UnbansAll st (unban_all details now_ms st)
unfolding unban_all UnbansAll
unban_all-UnbansAll details now_ms st =
    transaction-either (UnbansAll st) st (clear_active details now_ms)
      (clear_active_lem details now_ms (begin st), λ e. (refl, (refl, refl)))
