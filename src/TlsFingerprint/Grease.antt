-- ===== src/TlsFingerprint/Grease.antt =====
-- The bit test for RFC 8701 values, against the table of the RFC.
use propylea.Prelude.{
  Bool, arith, false, if◌then◌else◌, not, refl, suc, true, zero, ℕ, ◌%◌, ◌&&◌, ◌*◌, ◌+◌, ◌/◌, ◌<◌,
  ◌==◌, ◌↔◌, ◌≡◌,
}
use propylea.TlsFingerprint.{is_grease_u16}

-- 0x0a0a, 0x1a1a, ..., 0xfafa: both bytes are the same, with ten in the low digit.
abbrev pub IsGrease : ℕ → Type 0
IsGrease val = (k : ℕ) × (k < 16) × (val ≡ k * 0x1010 + 0x0a0a)

-- The test, in arithmetic.
grease_value : ℕ → Bool
grease_value val = (val / 256) == (val % 256) && (val % 16) == 10

-- Every value under the bound passes the test.
checked : (ℕ → Bool) → ℕ → Bool
checked test zero = true
checked test (suc bound) = if test bound then checked test bound else false

checked-below :
    (test : ℕ → Bool) (bound val : ℕ) → val < bound → checked test bound ≡ true → test val ≡ true
unfolding checked
checked-below test zero val small h = absurd (omega (arith, small))
checked-below test (suc bound) val small h = ground (arith, checked-below test bound val)

abbrev bool_eq : Bool → Bool → Bool
bool_eq true b = b
bool_eq false b = not b

-- Every 16-bit value, a row of 256 at a time.
abbrev row_agrees : ℕ → Bool
row_agrees hi =
    checked (λ lo. bool_eq (is_grease_u16 (hi * 256 + lo)) (grease_value (hi * 256 + lo))) 256

table_agrees : checked row_agrees 256 ≡ true
unfolding checked is_grease_u16 grease_value
table_agrees = refl

agrees :
    (hi lo : ℕ)
    → hi < 256
    → lo < 256
    → bool_eq (is_grease_u16 (hi * 256 + lo)) (grease_value (hi * 256 + lo)) ≡ true
agrees hi lo h k = checked-below _ 256 lo k (checked-below row_agrees 256 hi h table_agrees)

eq_of_bool_eq : (a b : Bool) → bool_eq a b ≡ true → a ≡ b
eq_of_bool_eq a b h = ground arith

is_grease-value : (val : ℕ) → val < 0x10000 → is_grease_u16 val ≡ grease_value val
is_grease-value val h =
    let e : val / 256 * 256 + val % 256 ≡ val = omega arith in
    eq_of_bool_eq _ _ (rw e at (agrees (val / 256) (val % 256) (omega arith) (omega arith)))

-- On 16-bit values the masks and the shift accept exactly the sixteen GREASE values of RFC 8701.
pub is_grease_u16_iff : (val : ℕ) → val < 0x10000 → (is_grease_u16 val ≡ true) ↔ IsGrease val
unfolding grease_value
is_grease_u16_iff val h =
    rw (is_grease-value val h)
      ((λ g. (val / 0x1010, ground arith, ground arith)), (λ g. ground arith))
