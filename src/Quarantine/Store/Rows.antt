-- ===== src/Quarantine/Store/Rows.antt =====
-- src/quarantine/store.rs: `quarantined_subnets` as a map from a CIDR to its row.
use propylea.Prelude.{
  All, Bool-cases, List, Option, Option-cases, Text, [], arith, err, false, if◌then◌else◌, inl, inr,
  map, none, refl, some, text_eq, text_eq_iff, text_ne_sym, ◌∷◌, ◌≡◌,
}
use propylea.Quarantine.Store.{
  Answer, QuarantineRecord, QuarantineStore, QuarantineStoreError, commit, later_outcomes,
  merge_row, next_outcome, transaction, upsert,
}

unfoldable pub find_row : Text → List QuarantineRecord → Option QuarantineRecord
find_row cidr [] = none
find_row cidr (row ∷ rows) = if text_eq row.cidr cidr then some row else find_row cidr rows

-- The row that a ban leaves under its CIDR.
unfoldable pub merged : Option QuarantineRecord → QuarantineRecord → QuarantineRecord
unfolding merge_row
merged none rec = rec
merged (some row) rec = merge_row row rec

-- The primary key: no two rows share a CIDR.
abbrev pub IsKeyed : List QuarantineRecord → Type 0
IsKeyed [] = Unit
IsKeyed (row ∷ rows) = All (λ r. text_eq r.cidr row.cidr ≡ false) rows × IsKeyed rows

pub find_row-upsert :
    (c : Text) (rec : QuarantineRecord) (rows : List QuarantineRecord)
    → find_row c (upsert rec rows)
      ≡ (if text_eq rec.cidr c then some (merged (find_row rec.cidr rows) rec) else find_row c rows)
unfolding find_row upsert merged merge_row
find_row-upsert c rec [] = ground arith
find_row-upsert c rec (row ∷ rows) = ground (
  arith,
  find_row-upsert c rec rows,
  text_eq_iff row.cidr rec.cidr,
  text_eq_iff row.cidr c,
  text_eq_iff rec.cidr c,
)

upsert-All :
    (rec : QuarantineRecord) (k : Text) (rows : List QuarantineRecord)
    → text_eq rec.cidr k ≡ false
    → All (λ r. text_eq r.cidr k ≡ false) rows
    → All (λ r. text_eq r.cidr k ≡ false) (upsert rec rows)
unfolding upsert merge_row
upsert-All rec k [] h a = (h, tt)
upsert-All rec k (row ∷ rows) h (a, as_rest) = ground (arith, upsert-All rec k rows h as_rest)

pub upsert-IsKeyed :
    (rec : QuarantineRecord) (rows : List QuarantineRecord)
    → IsKeyed rows
    → IsKeyed (upsert rec rows)
unfolding upsert merge_row
upsert-IsKeyed rec [] h = (tt, tt)
upsert-IsKeyed rec (row ∷ rows) (a, h) = elim (Bool-cases (text_eq row.cidr rec.cidr)) [
  | inl e ↦ rw (e, upsert) (a, h)
  | inr n ↦
      rw (n, upsert)
        (
          upsert-All rec row.cidr rows (text_ne_sym row.cidr rec.cidr n) a,
          upsert-IsKeyed rec rows h,
        )
]

-- An update that keeps every CIDR keeps the key.
abbrev pub KeepsCidr : (QuarantineRecord → QuarantineRecord) → Type 0
KeepsCidr f = (r : QuarantineRecord) → (f r).cidr ≡ r.cidr

map-All :
    (f : QuarantineRecord → QuarantineRecord) (k : Text) (rows : List QuarantineRecord)
    → KeepsCidr f
    → All (λ r. text_eq r.cidr k ≡ false) rows
    → All (λ r. text_eq r.cidr k ≡ false) (map f rows)
map-All f k [] h a = tt
map-All f k (row ∷ rows) h (a, rest) = (rw (h row) a, map-All f k rows h rest)

pub map-IsKeyed :
    (f : QuarantineRecord → QuarantineRecord) (rows : List QuarantineRecord)
    → KeepsCidr f
    → IsKeyed rows
    → IsKeyed (map f rows)
map-IsKeyed f [] h k = tt
map-IsKeyed f (row ∷ rows) h (a, k) =
    (rw (h row) (map-All f row.cidr rows h a), map-IsKeyed f rows h k)

-- A call either runs its body, on the same tables, or answers the database's error.
pub transaction-either {ℓ} :
    {A : Type 0} (P : Answer A → Type ℓ) (st : QuarantineStore)
    (body : QuarantineStore → A × QuarantineStore)
    → (let begun = record st { outcomes = later_outcomes st.outcomes } in
        P (commit (body begun)) × ((e : QuarantineStoreError) → P (err e, begun)))
    → P (transaction st body)
unfolding transaction
transaction-either P st body (done, failed) = elim (Option-cases (next_outcome st.outcomes)) [
  | inl e ↦ rw (e, transaction) done
  | inr (x, e) ↦ rw (e, transaction) (failed x)
]

pub transaction-none :
    {A : Type 0} (st : QuarantineStore) (body : QuarantineStore → A × QuarantineStore)
    → next_outcome st.outcomes ≡ none
    → transaction st body ≡ commit (body (record st { outcomes = later_outcomes st.outcomes }))
unfolding transaction
transaction-none st body h = rw (h, transaction) refl
