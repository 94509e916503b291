-- ===== src/Telemetry/Ring.antt =====
-- The ring buffer keeps the newest records, and a query finds them newest first.
use propylea.Prelude.{
  Bool-cases, List, [], append-nil, append_assoc, arith, drop, inl, inr, leb, length, length-append,
  length-drop, max, refl, suc, sym, tests, zero, ℕ, ◌++◌, ◌-◌, ◌<◌, ◌∙◌, ◌∷◌, ◌≡◌, ◌≤◌,
}
use propylea.Telemetry.{
  TelemetryRecord, TelemetryRingBuffer, new, pop_front, record_entry, total_records,
}

-- `record` for each entry of a history, oldest first.
abbrev pub record_all : TelemetryRingBuffer → List TelemetryRecord → TelemetryRingBuffer
record_all b [] = b
record_all b (e ∷ es) = record_all (record_entry b e) es

drop-append {ℓ} :
    {A : Type ℓ} (n : ℕ) (xs ys : List A) → n ≤ length xs → drop n (xs ++ ys) ≡ drop n xs ++ ys
drop-append zero xs ys h = refl
drop-append (suc n) [] ys h = absurd (omega arith)
drop-append (suc n) (x ∷ xs) ys h = drop-append n xs ys (omega arith)

drop-nil {ℓ} : {A : Type ℓ} (n : ℕ) → [] ≡ drop n (let xs : List A = [] in xs)
drop-nil zero = refl
drop-nil (suc n) = refl

drop-one {ℓ} : {A : Type ℓ} (n : ℕ) (xs : List A) → drop (suc n) xs ≡ pop_front (drop n xs)
drop-one zero [] = refl
drop-one zero (x ∷ xs) = refl
drop-one (suc n) [] = refl
drop-one (suc n) (x ∷ xs) = drop-one n xs

-- The buffer holds the last `max_capacity` entries of the history `past`.
record Holds (past : List TelemetryRecord) (b : TelemetryRingBuffer) : Type 0 where
  some_room : 0 < b.max_capacity
  newest : b.records ≡ drop (length past - b.max_capacity) past

record_entry-full :
    (past : List TelemetryRecord) (cap : ℕ) (e : TelemetryRecord)
    → 0 < cap
    → cap ≤ length past
    → pop_front (drop (length past - cap) past) ++ (e ∷ [])
      ≡ drop (length (past ++ (e ∷ [])) - cap) (past ++ (e ∷ []))
record_entry-full past cap e h k =
    let n = length past - cap in
    let up : length (past ++ (e ∷ [])) - cap ≡ suc n = omega (arith, length-append past (e ∷ [])) in
    rw (up, ← drop-one n past) (sym (drop-append (suc n) past (e ∷ []) (omega arith)))

record_entry-room :
    (past : List TelemetryRecord) (cap : ℕ) (e : TelemetryRecord)
    → length past < cap
    → past ++ (e ∷ []) ≡ drop (length (past ++ (e ∷ [])) - cap) (past ++ (e ∷ []))
record_entry-room past cap e h =
    let none_over : length (past ++ (e ∷ [])) - cap ≡ 0 =
      omega (arith, length-append past (e ∷ [])) in
    rw none_over

record_entry-newest :
    (past : List TelemetryRecord) (b : TelemetryRingBuffer) (e : TelemetryRecord)
    → Holds past b
    → (record_entry b e).records
      ≡ drop (length (past ++ (e ∷ [])) - b.max_capacity) (past ++ (e ∷ []))
unfolding record_entry
record_entry-newest past b e h =
    let n = length past - b.max_capacity in
    let size : length b.records ≡ length past - n = rw (h.newest) (length-drop n past) in
    elim (Bool-cases (leb b.max_capacity (length b.records))) [
      | inl full ↦
          rw (full, h.newest)
            (record_entry-full past b.max_capacity e h.some_room (omega (tests, h.some_room)))
      | inr room ↦
          let few : length past < b.max_capacity = ground (arith, h.some_room) in
          let zero_n : n ≡ 0 = omega (arith, few) in
          rw (room, h.newest, zero_n) (record_entry-room past b.max_capacity e few)
    ]

record_entry-Holds :
    (past : List TelemetryRecord) (b : TelemetryRingBuffer) (e : TelemetryRecord)
    → Holds past b
    → Holds (past ++ (e ∷ [])) (record_entry b e)
record_entry-Holds past b e h = record {
  some_room = unfold record_entry in h.some_room;
  newest = unfold record_entry in record_entry-newest past b e h;
}

record_all-Holds :
    (past es : List TelemetryRecord) (b : TelemetryRingBuffer)
    → Holds past b
    → Holds (past ++ es) (record_all b es)
record_all-Holds past [] b h = rw (append-nil past) h
record_all-Holds past (e ∷ es) b h =
    rw (← append_assoc past (e ∷ []) es)
      (record_all-Holds (past ++ (e ∷ [])) es (record_entry b e) (record_entry-Holds past b e h))

record_all-capacity :
    (es : List TelemetryRecord) (b : TelemetryRingBuffer)
    → (record_all b es).max_capacity ≡ b.max_capacity
record_all-capacity [] b = refl
record_all-capacity (e ∷ es) b =
    record_all-capacity es (record_entry b e) ∙ (unfold record_entry in refl)

-- A buffer of some capacity that has recorded a history, oldest entry first, holds exactly the
-- last `capacity` entries of the history in their order.
pub record_all-newest :
    (capacity : ℕ) (es : List TelemetryRecord)
    → 0 < capacity
    → (record_all (new capacity) es).records ≡ drop (length es - capacity) es
unfolding new
record_all-newest capacity es h =
    let held =
      record_all-Holds [] es (new capacity)
        (record { some_room = h; newest = drop-nil (0 - capacity) }) in
    rw (record_all-capacity es (new capacity)) at held.newest

length-pop_front {ℓ} : {A : Type ℓ} (xs : List A) → length (pop_front xs) ≡ length xs - 1
length-pop_front [] = omega arith
length-pop_front (x ∷ xs) = omega arith

-- A step keeps the number of records within the capacity, or within one if the capacity is zero.
pub record_entry-bounded :
    (b : TelemetryRingBuffer) (e : TelemetryRecord)
    → total_records b ≤ max b.max_capacity 1
    → total_records (record_entry b e) ≤ max (record_entry b e).max_capacity 1
unfolding record_entry total_records
record_entry-bounded b e h = ground (
  arith,
  length-append b.records (e ∷ []),
  length-append (pop_front b.records) (e ∷ []),
  length-pop_front b.records,
)
