-- ===== src/Sanitize/Banner.antt =====
-- What `sanitize_host_banner` and `neutralize_formula` guarantee.
use propylea.Prelude.{
  All, All-take, Bool, Bool-cases, List, Text, [], ap, arith, false, filter, inl, inr,
  is_ascii_upper, length, length-take, refl, starts_with_char, suc, take, to_ascii_lowercase,
  to_lower, trim, trim_start_by, true, ℕ, ◌+◌, ◌==◌, ◌∷◌, ◌≡◌, ◌≤◌,
}
use propylea.Sanitize.{
  host_only, is_host_char, max_banner_bytes, max_hostname_bytes, neutralize_formula,
  sanitize_host_banner, scrub_ansi_and_control, starts_dangerous,
}
use propylea.Sanitize.Scrub.{IsClean, scrub-IsClean}

-- The characters that a host banner can hold: lower case letters, digits and `.-[]:`.
abbrev pub IsHostChar : ℕ → Type 0
IsHostChar c = (is_host_char c ≡ true) × (is_ascii_upper c ≡ false)

filter-All {ℓ} : {A : Type ℓ} (p : A → Bool) (xs : List A) → All (λ x. p x ≡ true) (filter p xs)
filter-All p [] = tt
filter-All p (x ∷ xs) = elim (Bool-cases (p x)) [
  | inl h ↦ rw h (h, filter-All p xs)
  | inr h ↦ rw h (filter-All p xs)
]

to_lower-IsHostChar : (c : ℕ) → is_host_char c ≡ true → IsHostChar (to_lower c)
to_lower-IsHostChar c h = ground arith

lowercase-IsHostChar :
    (s : Text) → All (λ c. is_host_char c ≡ true) s → All IsHostChar (to_ascii_lowercase s)
lowercase-IsHostChar [] h = tt
lowercase-IsHostChar (c ∷ s) h = (to_lower-IsHostChar c h.0, lowercase-IsHostChar s h.1)

length-lowercase : (s : Text) → length (to_ascii_lowercase s) ≡ length s
length-lowercase [] = refl
length-lowercase (c ∷ s) = ap suc (length-lowercase s)

banner-IsHostChar :
    (s : Text)
    → All IsHostChar (to_ascii_lowercase (take max_hostname_bytes (filter is_host_char s)))
banner-IsHostChar s = lowercase-IsHostChar _ (
    All-take (λ c. is_host_char c ≡ true) max_hostname_bytes (filter is_host_char s)
      (filter-All is_host_char s))

banner-length :
    (s : Text)
    → length (to_ascii_lowercase (take max_hostname_bytes (filter is_host_char s)))
      ≤ max_hostname_bytes
banner-length s = omega (
  arith,
  length-lowercase (take max_hostname_bytes (filter is_host_char s)),
  length-take max_hostname_bytes (filter is_host_char s),
)

-- Whatever the Host header or SNI name, the banner has at most 253 characters, each of them a
-- lower case letter, a digit or one of `.-[]:`.
pub sanitize_host_banner-IsHostChar :
    (raw : Text)
    → All IsHostChar (sanitize_host_banner raw)
      × (length (sanitize_host_banner raw) ≤ max_hostname_bytes)
unfolding sanitize_host_banner
sanitize_host_banner-IsHostChar raw =
    let host = host_only (scrub_ansi_and_control (trim raw) (max_hostname_bytes + 16)) in
    (banner-IsHostChar host, banner-length host)

scrub-starts-tab :
    (s : Text) (most : ℕ)
    → IsClean most s
    → (starts_with_char s b'\t' ≡ false) × (starts_with_char s b'\r' ≡ false)
scrub-starts-tab [] most h = (refl, refl)
scrub-starts-tab (c ∷ s) most h = ground arith

-- Whatever the cell, what is written does not begin with `=`, `+`, `-`, `@`, a tab or a carriage
-- return, holds no control character, and takes at most 4097 bytes.
pub neutralize_formula_safe :
    (val : Text)
    → (starts_dangerous (neutralize_formula val) ≡ false)
      × IsClean (max_banner_bytes + 1) (neutralize_formula val)
unfolding neutralize_formula
neutralize_formula_safe val =
    let clean = scrub-IsClean val max_banner_bytes in
    ground (
      arith,
      clean,
      scrub-starts-tab (scrub_ansi_and_control val max_banner_bytes) max_banner_bytes clean,
    )

-- A cell that begins with one of these characters, also behind spaces, gets a quote in front, and
-- the rest is the scrubbed cell.
pub neutralize_formula_quotes :
    (val : Text)
    → starts_dangerous (trim_start_by (λ c. c == b' ') val) ≡ true
    → neutralize_formula val ≡ b'\'' ∷ scrub_ansi_and_control val max_banner_bytes
unfolding neutralize_formula
neutralize_formula_quotes val h = ground arith
