-- ===== src/Quarantine/Store/Listing.antt =====
-- src/quarantine/store.rs: what `get_active_bans` answers, alone and behind the other calls.
use mathlib.Core.Path.{subst}
use mathlib.Core.List.{Perm}
use mathlib.Core.List.Perm
use mathlib.Core.List.{Mem, mem-cons, Mem-prop, mem-cons_self, mem-cons_of_mem}
use mathlib.Core.Logic.Or
use propylea.Prelude.{
  All, Bool, Bool-cases, List, [], arith, err, false, filter, filter-All, inl, inr, leb, leb→le,
  ltb, ok, refl, ℕ, ◌&&◌, ◌^◌, ◌∷◌, ◌≡◌, ◌≤◌,
}
use propylea.Quarantine.Store.{
  Answer, QuarantineRecord, QuarantineStore, get_active_bans, insert_by_time, is_enforced,
  is_readable, newest_first, select_active,
}
use propylea.Quarantine.Store.Rows.{transaction-either}
use propylea.Quarantine.Store.Bans.{IsUnchanged}

abbrev pub IsNewestFirst : List QuarantineRecord → Type 0
IsNewestFirst [] = Unit
IsNewestFirst (row ∷ rows) =
    All (λ r. r.quarantined_at ≤ row.quarantined_at) rows × IsNewestFirst rows

insert_by_time-All {ℓ} :
    (P : QuarantineRecord → Type ℓ) (rec : QuarantineRecord) (rows : List QuarantineRecord)
    → P rec
    → All P rows
    → All P (insert_by_time rec rows)
unfolding insert_by_time
insert_by_time-All P rec [] h a = (h, a)
insert_by_time-All P rec (row ∷ rows) h (a, rest) =
    elim (Bool-cases (leb row.quarantined_at rec.quarantined_at)) [
      | inl e ↦ rw (e, insert_by_time) (h, (a, rest))
      | inr e ↦ rw (e, insert_by_time) (a, insert_by_time-All P rec rows h rest)
    ]

All-older :
    (m n : ℕ) (rows : List QuarantineRecord)
    → m ≤ n
    → All (λ r. r.quarantined_at ≤ m) rows
    → All (λ r. r.quarantined_at ≤ n) rows
All-older m n [] h a = tt
All-older m n (row ∷ rows) h (a, rest) = (omega arith, All-older m n rows h rest)

insert_by_time-IsNewestFirst :
    (rec : QuarantineRecord) (rows : List QuarantineRecord)
    → IsNewestFirst rows
    → IsNewestFirst (insert_by_time rec rows)
unfolding insert_by_time
insert_by_time-IsNewestFirst rec [] h = (tt, tt)
insert_by_time-IsNewestFirst rec (row ∷ rows) (a, h) =
    elim (Bool-cases (leb row.quarantined_at rec.quarantined_at)) [
      | inl e ↦
          let le = leb→le row.quarantined_at rec.quarantined_at e in
          rw (e, insert_by_time)
            ((le, All-older row.quarantined_at rec.quarantined_at rows le a), (a, h))
      | inr e ↦
          rw (e, insert_by_time)
            (
              insert_by_time-All (λ r. r.quarantined_at ≤ row.quarantined_at) rec rows
                  (ground (arith, e)) a,
              insert_by_time-IsNewestFirst rec rows h,
            )
    ]

newest_first-IsNewestFirst : (rows : List QuarantineRecord) → IsNewestFirst (newest_first rows)
unfolding newest_first
newest_first-IsNewestFirst [] = tt
newest_first-IsNewestFirst (row ∷ rows) =
    insert_by_time-IsNewestFirst row (newest_first rows) (newest_first-IsNewestFirst rows)

newest_first-All {ℓ} :
    (P : QuarantineRecord → Type ℓ) (rows : List QuarantineRecord)
    → All P rows
    → All P (newest_first rows)
unfolding newest_first
newest_first-All P [] a = tt
newest_first-All P (row ∷ rows) (a, rest) =
    insert_by_time-All P row (newest_first rows) a (newest_first-All P rows rest)

filter-IsNewestFirst :
    (p : QuarantineRecord → Bool) (rows : List QuarantineRecord)
    → IsNewestFirst rows
    → IsNewestFirst (filter p rows)
filter-IsNewestFirst p [] h = tt
filter-IsNewestFirst p (row ∷ rows) (a, h) = elim (Bool-cases (p row)) [
  | inl e ↦ rw e (
    filter-All (λ r. r.quarantined_at ≤ row.quarantined_at) p rows a,
    filter-IsNewestFirst p rows h,
  )
  | inr e ↦ rw e (filter-IsNewestFirst p rows h)
]

mem-insert_by_time :
    (r rec : QuarantineRecord) (rows : List QuarantineRecord)
    → Mem r (rec ∷ rows)
    → Mem r (insert_by_time rec rows)
unfolding insert_by_time
mem-insert_by_time r rec [] m = m
mem-insert_by_time r rec (row ∷ rows) m =
    elim (Bool-cases (leb row.quarantined_at rec.quarantined_at)) [
      | inl e ↦ rw (e, insert_by_time) m
      | inr e ↦
          rw (e, insert_by_time)
            (Or.elim Mem-prop (mem-cons.0 m)
              (λ first.
                mem-cons_of_mem row (mem-insert_by_time r rec rows (rw (← first) mem-cons_self)))
              (λ later.
                Or.elim Mem-prop (mem-cons.0 later) (λ here. rw (← here) mem-cons_self)
                  (λ rest.
                    mem-cons_of_mem row
                      (mem-insert_by_time r rec rows (mem-cons_of_mem rec rest)))))
    ]

pub mem-newest_first :
    (r : QuarantineRecord) (rows : List QuarantineRecord) → Mem r rows → Mem r (newest_first rows)
unfolding newest_first
mem-newest_first r [] m = m
mem-newest_first r (row ∷ rows) m = mem-insert_by_time r row (newest_first rows) (
    Or.elim Mem-prop (mem-cons.0 m) (λ here. rw (← here) mem-cons_self)
      (λ later. mem-cons_of_mem row (mem-newest_first r rows later)))

-- Putting a row in its place permutes, also once the rows are filtered.
cons-Perm :
    (p : QuarantineRecord → Bool) (row : QuarantineRecord) (xs ys : List QuarantineRecord)
    → Perm (filter p xs) (filter p ys)
    → Perm (filter p (row ∷ xs)) (filter p (row ∷ ys))
cons-Perm p row xs ys h = elim (Bool-cases (p row)) [
  | inl e ↦ rw e (Perm.cons row h)
  | inr e ↦ rw e h
]

swap-Perm :
    (p : QuarantineRecord → Bool) (a b : QuarantineRecord) (rows : List QuarantineRecord)
    → Perm (filter p (a ∷ b ∷ rows)) (filter p (b ∷ a ∷ rows))
swap-Perm p a b rows = elim (Bool-cases (p a)) [
  | inl e ↦ elim (Bool-cases (p b)) [
    | inl f ↦ rw (e, f) (Perm.swap b a (filter p rows))
    | inr f ↦ rw (e, f) (Perm.refl _)
  ]
  | inr e ↦ elim (Bool-cases (p b)) [
    | inl f ↦ rw (e, f) (Perm.refl _)
    | inr f ↦ rw (e, f) (Perm.refl _)
  ]
]

insert_by_time-Perm :
    (p : QuarantineRecord → Bool) (rec : QuarantineRecord) (rows : List QuarantineRecord)
    → Perm (filter p (insert_by_time rec rows)) (filter p (rec ∷ rows))
unfolding insert_by_time
insert_by_time-Perm p rec [] = Perm.refl _
insert_by_time-Perm p rec (row ∷ rows) =
    elim (Bool-cases (leb row.quarantined_at rec.quarantined_at)) [
      | inl e ↦ rw (e, insert_by_time) (Perm.refl _)
      | inr e ↦
          rw (e, insert_by_time)
            (Perm.trans
              (cons-Perm p row (insert_by_time rec rows) (rec ∷ rows)
                (insert_by_time-Perm p rec rows))
              (swap-Perm p row rec rows))
    ]

newest_first-Perm :
    (p : QuarantineRecord → Bool) (rows : List QuarantineRecord)
    → Perm (filter p (newest_first rows)) (filter p rows)
unfolding newest_first
newest_first-Perm p [] = Perm.refl []
newest_first-Perm p (row ∷ rows) =
    Perm.trans (insert_by_time-Perm p row (newest_first rows))
      (cons-Perm p row (newest_first rows) rows (newest_first-Perm p rows))

filter-filter :
    (p q : QuarantineRecord → Bool) (rows : List QuarantineRecord)
    → filter p (filter q rows) ≡ filter (λ r. q r && p r) rows
filter-filter p q [] = refl
filter-filter p q (row ∷ rows) = ground (arith, filter-filter p q rows)

-- A ban in force at the time: the flag is set, it ends later, and its count is a `u32`.
abbrev pub is_in_force : ℕ → QuarantineRecord → Bool
is_in_force now_ms r = (r.active && ltb now_ms r.expires_at) && ltb r.infraction_count (2 ^ 32)

-- What an answer of `get_active_bans` promises.
pub ListsActive : ℕ → QuarantineStore → Answer (List QuarantineRecord) → Type 0
ListsActive now_ms st (ok found, st') =
    Perm found (filter (is_in_force now_ms) st.rows) × (IsNewestFirst found × IsUnchanged st st')
ListsActive now_ms st (err e, st') = IsUnchanged st st'

-- `get_active_bans` answers the rows of the table that are in force, active ones that expire after
-- the given time and whose count is a `u32`, each as many times as the table has it and no other,
-- newest first; it changes no table, also where the database fails.
pub get_active_bans-ListsActive :
    (now_ms : ℕ) (st : QuarantineStore) → ListsActive now_ms st (get_active_bans now_ms st)
unfolding get_active_bans select_active ListsActive is_readable
get_active_bans-ListsActive now_ms st =
    let kept = filter (is_enforced now_ms) st.rows in
    transaction-either (ListsActive now_ms st) st
      (λ begun. (select_active now_ms begun.rows, begun))
      (
        (
          subst (Perm (select_active now_ms st.rows))
              (filter-filter is_readable (is_enforced now_ms) st.rows)
              (newest_first-Perm is_readable kept),
          (
            filter-IsNewestFirst is_readable (newest_first kept) (newest_first-IsNewestFirst kept),
            (refl, (refl, refl)),
          ),
        ),
        λ e. (refl, (refl, refl)),
      )

filter-inactive :
    (now_ms : ℕ) (rows : List QuarantineRecord)
    → All (λ r. r.active ≡ false) rows
    → filter (is_enforced now_ms) rows ≡ []
filter-inactive now_ms [] a = refl
filter-inactive now_ms (row ∷ rows) (a, rest) = rw a (filter-inactive now_ms rows rest)

pub select_active-none :
    (now_ms : ℕ) (rows : List QuarantineRecord)
    → All (λ r. r.active ≡ false) rows
    → select_active now_ms rows ≡ []
unfolding select_active newest_first
select_active-none now_ms rows a = rw (filter-inactive now_ms rows a)
