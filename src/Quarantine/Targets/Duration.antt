-- ===== src/Quarantine/Targets/Duration.antt =====
-- src/quarantine/cli/parsers.rs: the durations that `parse_duration_str` reads.
use propylea.Quarantine.Targets.{
  ends_with_char, parse_duration_str, parse_lowered, parse_with_unit, unit_of, without_last,
}
use propylea.Prelude.{
  All, All-append, IsDigit, Option, StartsWithDigit, Text, [], ap, arith, false, if◌then◌else◌,
  is_empty, is_whitespace, leb, length, length-append, none, ok, parse-to_decimal, parse_u64,
  parse_u64-none, refl, some, take, to_ascii_lowercase, to_decimal, to_decimal-IsDigit,
  to_decimal-StartsWithDigit, to_lower, trim, trim_end_by, u64_mod, ℕ, ◌%◌, ◌&&◌, ◌*◌, ◌++◌, ◌-◌,
  ◌<◌, ◌==◌, ◌∙◌, ◌∷◌, ◌≡◌,
}

-- Trimming and lowering leave the character as it is.
abbrev IsPlain : ℕ → Type 0
IsPlain c = (is_whitespace c ≡ false) × (to_lower c ≡ c)

trim_end-plain : (s : Text) → All IsPlain s → trim_end_by is_whitespace s ≡ s
trim_end-plain [] h = refl
trim_end-plain (c ∷ []) h = rw (h.0.0)
trim_end-plain (c ∷ d ∷ s) h = rw (trim_end-plain (d ∷ s) h.1)

trim-plain : (s : Text) → All IsPlain s → trim s ≡ s
trim-plain [] h = refl
trim-plain (c ∷ s) h = rw (h.0.0) (trim_end-plain (c ∷ s) h)

lower-plain : (s : Text) → All IsPlain s → to_ascii_lowercase s ≡ s
lower-plain [] h = refl
lower-plain (c ∷ s) h = rw (h.0.1, lower-plain s h.1)

digit-IsPlain : (c : ℕ) → IsDigit c → IsPlain c
digit-IsPlain c h = ground arith

All-IsPlain : (s : Text) → All IsDigit s → All IsPlain s
All-IsPlain [] h = tt
All-IsPlain (c ∷ s) h = (digit-IsPlain c h.0, All-IsPlain s h.1)

parse_duration-plain : (s : Text) → All IsPlain s → parse_duration_str s ≡ parse_lowered s
unfolding parse_duration_str
parse_duration-plain s h =
    ap parse_lowered (ap to_ascii_lowercase (trim-plain s h) ∙ lower-plain s h)

parse_lowered-number :
    (n : ℕ) (s : Text) → is_empty s ≡ false → parse_u64 s ≡ some n → parse_lowered s ≡ ok n
unfolding parse_lowered
parse_lowered-number n s h e = rw (h, e)

-- A number of seconds that is printed is read back as that duration: what `exec_cli_ingest`
-- relies on when it passes its duration on as text.
pub parse_duration-to_decimal : (n : ℕ) → n < u64_mod → parse_duration_str (to_decimal n) ≡ ok n
parse_duration-to_decimal n h =
    parse_duration-plain (to_decimal n) (All-IsPlain (to_decimal n) (to_decimal-IsDigit n))
    ∙ parse_lowered-number n (to_decimal n) (to_decimal-StartsWithDigit n).1 (parse-to_decimal n h)

-- The units by their letter, in seconds.
abbrev pub unit_seconds : ℕ → Option ℕ
unit_seconds u =
    if u == b's'
    then some 1
    else if u == b'm'
    then some 60
    else if u == b'h'
    then some 3600
    else if u == b'd'
    then some 86400
    else if u == b'w'
    then some 604800
    else none

ends_with_last : (s : Text) (u c : ℕ) → ends_with_char (s ++ (u ∷ [])) c ≡ (u == c)
ends_with_last [] u c = ground arith
ends_with_last (x ∷ []) u c = ground arith
ends_with_last (x ∷ y ∷ s) u c = ground (arith, ends_with_last (y ∷ s) u c)

unit_of-last : (s : Text) (u : ℕ) → unit_of (s ++ (u ∷ [])) ≡ unit_seconds u
unfolding unit_of
unit_of-last s u = rw (
  ends_with_last s u b's',
  ends_with_last s u b'm',
  ends_with_last s u b'h',
  ends_with_last s u b'd',
  ends_with_last s u b'w',
)

take-append : (s t : Text) → take (length s) (s ++ t) ≡ s
take-append [] t = refl
take-append (c ∷ s) t = ap (λ l. c ∷ l) (take-append s t)

without_last-append : (s : Text) (u : ℕ) → without_last (s ++ (u ∷ [])) ≡ s
without_last-append s u =
    let shorter : length (s ++ (u ∷ [])) - 1 ≡ length s = omega (arith, length-append s (u ∷ [])) in
    ap (λ n. take n (s ++ (u ∷ []))) shorter ∙ take-append s (u ∷ [])

unit-IsPlain :
    (u k : ℕ) → unit_seconds u ≡ some k → IsPlain u × ((leb b'0' u && leb u b'9') ≡ false)
unit-IsPlain u k h = ground arith

All-IsPlain_append : (s : Text) (u : ℕ) → All IsPlain s → IsPlain u → All IsPlain (s ++ (u ∷ []))
All-IsPlain_append s u hs hu = All-append IsPlain s (u ∷ []) hs (hu, tt)

parse_lowered-unit :
    (s : Text) (n u k : ℕ)
    → StartsWithDigit s
    → parse_u64 s ≡ some n
    → unit_seconds u ≡ some k
    → parse_lowered (s ++ (u ∷ [])) ≡ ok ((n * k) % u64_mod)
unfolding parse_lowered parse_with_unit
parse_lowered-unit [] n u k h e f = cc
parse_lowered-unit (c ∷ s) n u k h e f = rw (
  parse_u64-none u (c ∷ s) h (unit-IsPlain u k f).1,
  unit_of-last (c ∷ s) u,
  f,
  without_last-append (c ∷ s) u,
  e,
)

-- A printed 64-bit number and a unit letter is that many units, in seconds: s, m, h, d and w, the
-- product at 64 bits.
pub parse_duration-unit :
    (n u k : ℕ)
    → n < u64_mod
    → unit_seconds u ≡ some k
    → parse_duration_str (to_decimal n ++ (u ∷ [])) ≡ ok ((n * k) % u64_mod)
parse_duration-unit n u k h e =
    let plain = All-IsPlain (to_decimal n) (to_decimal-IsDigit n) in
    parse_duration-plain (to_decimal n ++ (u ∷ []))
      (All-IsPlain_append (to_decimal n) u plain (unit-IsPlain u k e).0)
    ∙ parse_lowered-unit (to_decimal n) n u k (to_decimal-StartsWithDigit n) (parse-to_decimal n h)
        e
