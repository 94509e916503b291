-- ===== src/Framing/Accepted.antt =====
-- src/framing_guard/mod.rs: what holds of every request that `validate_headers` lets through.
use propylea.Http.{HeaderApi}
use propylea.Framing.{
  Check, FramingGuard, FramingViolation, check_content_length, check_header_value_bytes,
  check_hygiene, check_length_text, check_limit, check_method, check_parts, check_transfer_encoding,
  content_length, first_part, is_illegal_byte, malformed_content_length, non_ascii_length, pass,
  same_parts, same_values, tail_parts, transfer_encoding, unsupported_transfer_encoding,
  validate_content_length, validate_headers,
}
use propylea.Prelude.{
  >>=-eq-ok, All, Bool-cases, Bytes, List, Option, Text, [], arith, codes, contains_char, ends_with,
  err, false, inl, inr, is_empty, none, not, ok, ok_or, parse_u64, refl, some, split, text_eq,
  text_eq→eq, to_ascii_lowercase, trim, true, ℕ, ◌&&◌, ◌>>=◌, ◌>>◌, ◌∷◌, ◌≡◌, ◌≢◌, ◌≤◌, ◌⊎◌,
}

-- Any byte but a control character, a tab excepted.
abbrev pub IsLegalByte : ℕ → Type 0
IsLegalByte b = ((0x20 ≤ b) ⊎ (b ≡ 0x9)) × (b ≢ 0x7f)

>>-ok : (m k : Check) → (m >> k) ≡ pass → (m ≡ pass) × (k ≡ pass)
>>-ok (ok tt) k h = (refl, h)
>>-ok (err e) k h = cc

ok_or-some :
    {A : Type 0} (o : Option A) (e : FramingViolation) {a : A} → ok_or o e ≡ ok a → o ≡ some a
ok_or-some none e h = cc
ok_or-some (some b) e h = cc

legal_of : (b : ℕ) → is_illegal_byte b ≡ false → IsLegalByte b
legal_of b h = ground arith

check_header_value_bytes-All :
    (name : Text) (bytes : Bytes)
    → check_header_value_bytes name bytes ≡ pass
    → All IsLegalByte bytes
unfolding check_header_value_bytes
check_header_value_bytes-All name [] h = tt
check_header_value_bytes-All name (b ∷ bs) h = elim (Bool-cases (is_illegal_byte b)) [
  | inl e ↦ let clash = rw (e, check_header_value_bytes) at h in cc
  | inr e ↦
      (legal_of b e, check_header_value_bytes-All name bs (rw (e, check_header_value_bytes) at h))
]

-- Each part, trimmed, is the same text.
same_parts-All :
    (first : Text) (parts : List Text)
    → same_parts first parts ≡ pass
    → All (λ p. trim p ≡ first) parts
unfolding same_parts
same_parts-All first [] h = tt
same_parts-All first (p ∷ ps) h = elim (Bool-cases (text_eq (trim p) first)) [
  | inl e ↦ (text_eq→eq (trim p) first e, same_parts-All first ps (rw (e, same_parts) at h))
  | inr e ↦ let clash = rw (e, same_parts) at h in cc
]

-- The length that a Content-Length text announces: every part between its commas is, trimmed, the
-- same text, and that text is a number within the limit.
abbrev pub Announces : FramingGuard → Text → ℕ → Type 0
Announces g s n =
    (parse_u64 (trim (first_part s)) ≡ some n)
    × ((n ≤ g.max_body_bytes)
        × ((contains_char s b',' ≡ true)
            → All (λ p. trim p ≡ trim (first_part s)) (tail_parts (split b',' s))))

within_limit : (g : FramingGuard) (n : ℕ) → check_limit g n ≡ pass → n ≤ g.max_body_bytes
within_limit g n h = ground arith

check_parts-All :
    (s : Text)
    → check_parts s ≡ pass
    → contains_char s b',' ≡ true
    → All (λ p. trim p ≡ trim (first_part s)) (tail_parts (split b',' s))
check_parts-All s h c = same_parts-All (trim (first_part s)) (tail_parts (split b',' s)) (rw c at h)

check_length_text-Announces :
    (g : FramingGuard) (s : Text) → check_length_text g s ≡ pass → (n : ℕ) × Announces g s n
unfolding check_length_text
check_length_text-Announces g s h =
    let parse = ok_or (parse_u64 (trim (first_part s))) (malformed_content_length s) in
    let (parts, rest) = >>-ok (check_parts s) (parse >>= check_limit g) h in
    let (n, parsed, limit) = >>=-eq-ok parse (check_limit g) rest in
    (
      n,
      (
        ok_or-some (parse_u64 (trim (first_part s))) (malformed_content_length s) parsed,
        (within_limit g n limit, check_parts-All s parts),
      ),
    )

module _ (api : HeaderApi) where
  open api use {HeaderMap, HeaderValue, get_all, iter, to_str, as_bytes}

  -- The value reads as a text with this property.
  abbrev pub ReadsAs : (Text → Type 0) → HeaderValue → Type 0
  ReadsAs P v = (s : Text) × (to_str v ≡ some s) × P s

  same_values-All :
      (first : Text) (vals : List HeaderValue)
      → same_values api first vals ≡ pass
      → All (ReadsAs (λ s. trim s ≡ trim first)) vals
  unfolding same_values
  same_values-All first [] h = tt
  same_values-All first (v ∷ vs) h =
      let (s, read, rest) = >>=-eq-ok (ok_or (to_str v) non_ascii_length) _ h in
      elim (Bool-cases (text_eq (trim s) (trim first))) [
        | inl e ↦ (
          (s, ok_or-some (to_str v) non_ascii_length read, text_eq→eq (trim s) (trim first) e),
          same_values-All first vs (rw e at rest),
        )
        | inr e ↦ let clash = rw e at rest in cc
      ]

  -- What the Content-Length values of an accepted request are.
  pub AnnouncesLength : FramingGuard → List HeaderValue → Type 0
  AnnouncesLength g [] = Unit
  AnnouncesLength g (v ∷ vs) =
      (s : Text) × (to_str v ≡ some s)
      × ((n : ℕ) × Announces g s n)
      × All (ReadsAs (λ t. trim t ≡ trim s)) vs

  check_content_length-AnnouncesLength :
      (g : FramingGuard) (vals : List HeaderValue)
      → check_content_length api g vals ≡ pass
      → AnnouncesLength g vals
  unfolding check_content_length validate_content_length AnnouncesLength
  check_content_length-AnnouncesLength g [] h = tt
  check_content_length-AnnouncesLength g (v ∷ vs) h =
      let (s, read, rest) = >>=-eq-ok (ok_or (to_str v) non_ascii_length) _ h in
      let both = >>-ok (same_values api s vs) (check_length_text g s) rest in
      (
        s,
        ok_or-some (to_str v) non_ascii_length read,
        check_length_text-Announces g s both.1,
        same_values-All s vs both.0,
      )

  -- The text, trimmed and in lower case, ends in the seven letters of `chunked`.
  abbrev pub EndsInChunked : Text → Type 0
  EndsInChunked s = ends_with (to_ascii_lowercase (trim s)) (codes "chunked") ≡ true

  check_transfer_encoding-All :
      (tes : List HeaderValue)
      → check_transfer_encoding api tes ≡ pass
      → All (ReadsAs EndsInChunked) tes
  unfolding check_transfer_encoding
  check_transfer_encoding-All [] h = tt
  check_transfer_encoding-All (v ∷ vs) h =
      let bad = unsupported_transfer_encoding (codes "Non-ASCII Transfer-Encoding") in
      let (s, read, rest) = >>=-eq-ok (ok_or (to_str v) bad) _ h in
      elim (Bool-cases (ends_with (to_ascii_lowercase (trim s)) (codes "chunked"))) [
        | inl e ↦
            ((s, ok_or-some (to_str v) bad read, e), check_transfer_encoding-All vs (rw e at rest))
        | inr e ↦ let clash = rw e at rest in cc
      ]

  check_hygiene-All :
      (headers : List (Text × HeaderValue))
      → check_hygiene api headers ≡ pass
      → All (λ e. All IsLegalByte (as_bytes e.1)) headers
  unfolding check_hygiene
  check_hygiene-All [] h = tt
  check_hygiene-All ((name, v) ∷ headers) h =
      let both = >>-ok (check_header_value_bytes name (as_bytes v)) (check_hygiene api headers) h in
      (check_header_value_bytes-All name (as_bytes v) both.0, check_hygiene-All headers both.1)

  pub record IsFramed (g : FramingGuard) (m : HeaderMap) : Type 0 where
    pub one_framing : (get_all content_length m ≡ []) ⊎ (get_all transfer_encoding m ≡ [])
    pub length_announced : AnnouncesLength g (get_all content_length m)
    pub chunked_end : All (ReadsAs EndsInChunked) (get_all transfer_encoding m)
    pub legal_bytes : All (λ e. All IsLegalByte (as_bytes e.1)) (iter m)

  one_framing_of :
      (cl te : List HeaderValue)
      → (not (is_empty cl) && not (is_empty te)) ≡ false
      → (cl ≡ []) ⊎ (te ≡ [])
  one_framing_of [] te h = inl refl
  one_framing_of (v ∷ vs) [] h = inr refl
  one_framing_of (v ∷ vs) (w ∷ ws) h = cc

  -- A request that is let through has no Content-Length or no Transfer-Encoding; its
  -- Content-Length values, and the parts between the commas of the first, are all one text once
  -- trimmed, and that text's first part is a number within the limit; every Transfer-Encoding value,
  -- trimmed and whatever its case, ends in the text `chunked`; and no header holds a control
  -- character other than a tab.
  pub validate_headers-IsFramed :
      (g : FramingGuard) (m : HeaderMap) (method : Text)
      → validate_headers api g m method ≡ pass
      → IsFramed g m
  unfolding validate_headers
  validate_headers-IsFramed g m method h =
      let cl = get_all content_length m in
      let te = get_all transfer_encoding m in
      elim (Bool-cases (not (is_empty cl) && not (is_empty te))) [
        | inl e ↦ let clash = rw (e, validate_headers) at h in cc
        | inr e ↦
            let h1 = >>-ok (check_content_length api g cl) _ (rw (e, validate_headers) at h) in
            let h2 = >>-ok (check_transfer_encoding api te) _ h1.1 in
            let h3 = >>-ok (check_hygiene api (iter m)) (check_method api m method) h2.1 in
            record {
              one_framing = one_framing_of cl te e;
              length_announced = check_content_length-AnnouncesLength g cl h1.0;
              chunked_end = check_transfer_encoding-All te h2.0;
              legal_bytes = check_hygiene-All (iter m) h3.0;
            }
      ]
