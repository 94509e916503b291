-- ===== src/Sanitize.antt =====
-- src/sanitize.rs: scrubbing of untrusted text before it is logged, stored or printed. The
-- iterator over the characters is the text still to be read; each loop over the shared iterator is
-- a function of the block below, so that leaving an inner loop goes on in the outer one.
mod Tests
pub mod Scrub
pub mod Banner
use propylea.Prelude.{
  Bool, Text, [], before_char, contains_char, false, filter, if◌then◌else◌, is_ascii_alphanumeric,
  is_control, leb, len_utf8, ltb, starts_with_char, take, to_ascii_lowercase, trim, trim_start_by,
  true, utf8_len, ℕ, ◌&&◌, ◌++◌, ◌+◌, ◌==◌, ◌||◌, ◌∷◌,
}

abbrev pub max_banner_bytes : ℕ
max_banner_bytes = 4096

abbrev pub max_hostname_bytes : ℕ
max_hostname_bytes = 253

abbrev pub esc : ℕ
esc = 0x1b

unfoldable mutual
  -- `while let Some(ch) = chars.next()`
  pub scrub_from : ℕ → Text → Text → Text
  scrub_from most out [] = out
  scrub_from most out (ch ∷ cs) = elim (leb most (utf8_len out)) [
    | true ↦ out
    | false ↦ elim (ch == esc) [
      | true ↦ scrub_escape most out cs
      | false ↦ elim (is_control ch) [
        | true ↦ scrub_from most (if ch == b'\t' then out ++ (b' ' ∷ []) else out) cs
        | false ↦ elim (ltb most (utf8_len out + len_utf8 ch)) [
          | true ↦ out
          | false ↦ scrub_from most (out ++ (ch ∷ [])) cs
        ]
      ]
    ]
  ]

  -- `match chars.peek().copied()`, behind an ESC
  pub scrub_escape : ℕ → Text → Text → Text
  scrub_escape most out [] = out
  scrub_escape most out (c ∷ cs) = elim (c == b'[') [
    | true ↦ scrub_csi most out cs
    | false ↦ elim (c == b']') [ true ↦ scrub_osc most out cs | false ↦ scrub_from most out cs ]
  ]

  -- `for c in chars.by_ref()`: up to the final byte
  pub scrub_csi : ℕ → Text → Text → Text
  scrub_csi most out [] = out
  scrub_csi most out (c ∷ cs) = elim (leb 0x40 c && leb c 0x7e) [
    | true ↦ scrub_from most out cs
    | false ↦ scrub_csi most out cs
  ]

  -- `while let Some(c) = chars.next()`: up to BEL, or ESC and a backslash
  pub scrub_osc : ℕ → Text → Text → Text
  scrub_osc most out [] = out
  scrub_osc most out (c ∷ []) = elim (c == 0x07) [
    | true ↦ scrub_from most out []
    | false ↦ scrub_osc most out []
  ]
  scrub_osc most out (c ∷ d ∷ cs) = elim (c == 0x07) [
    | true ↦ scrub_from most out (d ∷ cs)
    | false ↦ elim (c == esc && d == b'\\') [
      | true ↦ scrub_from most out cs
      | false ↦ scrub_osc most out (d ∷ cs)
    ]
  ]

unfoldable pub scrub_ansi_and_control : Text → ℕ → Text
unfolding scrub_from
scrub_ansi_and_control input most = scrub_from most [] input

abbrev pub is_host_char : ℕ → Bool
is_host_char c =
    is_ascii_alphanumeric c || c == b'.' || c == b'-' || c == b'[' || c == b']' || c == b':'

-- `&scrubbed[..=end_bracket]` if there is a bracket, else the whole text
abbrev through_bracket : Text → Text
through_bracket s = if contains_char s b']' then before_char b']' s ++ (b']' ∷ []) else s

unfoldable pub host_only : Text → Text
host_only s = if starts_with_char s b'[' then through_bracket s else before_char b':' s

unfoldable pub sanitize_host_banner : Text → Text
unfolding host_only
sanitize_host_banner raw = to_ascii_lowercase (
    take max_hostname_bytes (
      filter is_host_char
        (host_only (scrub_ansi_and_control (trim raw) (max_hostname_bytes + 16)))))

abbrev pub starts_formula : Text → Bool
starts_formula s =
    starts_with_char s b'='
    || starts_with_char s b'+'
    || starts_with_char s b'-'
    || starts_with_char s b'@'

abbrev pub starts_dangerous : Text → Bool
starts_dangerous s = starts_formula s || starts_with_char s b'\t' || starts_with_char s b'\r'

unfoldable pub neutralize_formula : Text → Text
neutralize_formula val =
    let trimmed = trim_start_by (λ c. c == b' ') val in
    let scrubbed = scrub_ansi_and_control val max_banner_bytes in
    if starts_dangerous val || starts_dangerous trimmed || starts_formula scrubbed
    then b'\'' ∷ scrubbed
    else scrubbed
