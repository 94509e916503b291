-- ===== src/Prelude/Decimal.antt =====
-- `u64::to_string` and `str::parse::<u64>`, and that they undo one another.
use Prim.Native.Nat.{ℕ, zero, suc, ◌+◌, ◌-◌, ◌*◌, ◌/◌, ◌%◌, ◌^◌, ◌<◌, ◌≤◌}
use mathlib.Core.Path.{◌≡◌, refl, ◌∙◌}
use mathlib.Core.Logic.{inl, inr}
use mathlib.Core.Bool.{true, false, ◌&&◌}
use mathlib.Core.List.{[], ◌∷◌, ◌++◌}
use mathlib.Core.Option.{Option, none, some}
use native.Mathlib.Omega.{arith}
use propylea.Prelude.Tests.{Bool-cases, if◌then◌else◌, leb, ltb, ◌==◌}
use propylea.Prelude.Lists.{All, is_empty}
use propylea.Prelude.Strings.{Text, starts_with_char}

abbrev pub u64_mod : ℕ
u64_mod = 2 ^ 64

digits_from : ℕ → ℕ → Text → Text
digits_from zero n acc = acc
digits_from (suc fuel) n acc = elim (ltb n 10) [
  | true ↦ (b'0' + n) ∷ acc
  | false ↦ digits_from fuel (n / 10) ((b'0' + n % 10) ∷ acc)
]

-- The fuel is more than the digits of `n`.
unfoldable pub to_decimal : ℕ → Text
unfolding digits_from
to_decimal n = digits_from (suc n) n []

-- The digits that follow, behind those that make up `acc`; `None` on overflow.
unfoldable pub parse_digits : ℕ → Text → Option ℕ
parse_digits acc [] = some acc
parse_digits acc (c ∷ s) =
    let v = acc * 10 + (c - b'0') in
    let rest = parse_digits v s in if leb b'0' c && leb c b'9' && ltb v u64_mod then rest else none

-- A plus sign may stand in front, and a sign alone is no number.
unfoldable pub parse_u64 : Text → Option ℕ
unfolding parse_digits
parse_u64 [] = none
parse_u64 (c ∷ s) =
    if c == b'+' then (if is_empty s then none else parse_digits 0 s) else parse_digits 0 (c ∷ s)

parse-digits_from :
    (fuel n : ℕ) (acc : Text)
    → n < fuel
    → n < u64_mod
    → parse_digits 0 (digits_from fuel n acc) ≡ parse_digits n acc
unfolding digits_from
parse-digits_from zero n acc h k = elim h [ ]
parse-digits_from (suc fuel) n acc h k = elim (Bool-cases (ltb n 10)) [
  | inl small ↦ rw (small, digits_from) (unfold parse_digits in ground arith)
  | inr large ↦
      rw (large, digits_from)
        (parse-digits_from fuel (n / 10) ((b'0' + n % 10) ∷ acc) (ground arith) (omega arith)
          ∙ (unfold parse_digits in ground arith))
]

-- The text begins with a digit, so no sign is read.
abbrev pub StartsWithDigit : Text → Type 0
StartsWithDigit s = (starts_with_char s b'+' ≡ false) × (is_empty s ≡ false)

digits_from-StartsWithDigit :
    (fuel n : ℕ) (acc : Text) → n < fuel → StartsWithDigit (digits_from fuel n acc)
unfolding digits_from
digits_from-StartsWithDigit zero n acc h = elim h [ ]
digits_from-StartsWithDigit (suc fuel) n acc h =
    ground (arith, digits_from-StartsWithDigit fuel (n / 10) ((b'0' + n % 10) ∷ acc))

pub parse_u64-StartsWithDigit : (s : Text) → StartsWithDigit s → parse_u64 s ≡ parse_digits 0 s
unfolding parse_u64
parse_u64-StartsWithDigit [] h = cc
parse_u64-StartsWithDigit (c ∷ s) h = rw (h.0)

-- A 64-bit number that is printed and parsed comes back.
pub parse-to_decimal : (n : ℕ) → n < u64_mod → parse_u64 (to_decimal n) ≡ some n
unfolding to_decimal
parse-to_decimal n h =
    parse_u64-StartsWithDigit _ (digits_from-StartsWithDigit (suc n) n [] (omega arith))
    ∙ parse-digits_from (suc n) n [] (omega arith) h
    ∙ (unfold parse_digits in refl)

-- What parses is a 64-bit number.
parse_digits-lt :
    (acc : ℕ) (s : Text) (n : ℕ) → acc < u64_mod → parse_digits acc s ≡ some n → n < u64_mod
unfolding parse_digits
parse_digits-lt acc [] n h e = ground arith
parse_digits-lt acc (c ∷ s) n h e = ground (arith, parse_digits-lt (acc * 10 + (c - b'0')) s n)

pub parse_u64-lt : (s : Text) (n : ℕ) → parse_u64 s ≡ some n → n < u64_mod
unfolding parse_u64
parse_u64-lt [] n e = cc
parse_u64-lt (c ∷ s) n e = ground (arith, parse_digits-lt 0 s n, parse_digits-lt 0 (c ∷ s) n)

abbrev pub IsDigit : ℕ → Type 0
IsDigit c = (b'0' ≤ c) × (c ≤ b'9')

digits_from-IsDigit :
    (fuel n : ℕ) (acc : Text) → All IsDigit acc → All IsDigit (digits_from fuel n acc)
unfolding digits_from
digits_from-IsDigit zero n acc h = h
digits_from-IsDigit (suc fuel) n acc h = elim (Bool-cases (ltb n 10)) [
  | inl small ↦ rw (small, digits_from) ((omega arith, ground (arith, small)), h)
  | inr large ↦
      rw (large, digits_from)
        (digits_from-IsDigit fuel (n / 10) ((b'0' + n % 10) ∷ acc) ((omega arith, omega arith), h))
]

pub to_decimal-IsDigit : (n : ℕ) → All IsDigit (to_decimal n)
unfolding to_decimal
to_decimal-IsDigit n = digits_from-IsDigit (suc n) n [] tt

pub to_decimal-StartsWithDigit : (n : ℕ) → StartsWithDigit (to_decimal n)
unfolding to_decimal
to_decimal-StartsWithDigit n = digits_from-StartsWithDigit (suc n) n [] (omega arith)

parse_digits-none :
    (acc u : ℕ) (s : Text)
    → (leb b'0' u && leb u b'9') ≡ false
    → parse_digits acc (s ++ (u ∷ [])) ≡ none
unfolding parse_digits
parse_digits-none acc u [] h = ground arith
parse_digits-none acc u (c ∷ s) h = ground (arith, parse_digits-none (acc * 10 + (c - b'0')) u s h)

-- A digit first and no digit last is no number.
pub parse_u64-none :
    (u : ℕ) (s : Text)
    → StartsWithDigit s
    → (leb b'0' u && leb u b'9') ≡ false
    → parse_u64 (s ++ (u ∷ [])) ≡ none
parse_u64-none u [] h k = cc
parse_u64-none u (c ∷ s) h k =
    parse_u64-StartsWithDigit (c ∷ (s ++ (u ∷ []))) (h.0, refl) ∙ parse_digits-none 0 u (c ∷ s) k
