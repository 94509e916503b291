-- ===== src/Framing.antt =====
-- src/framing_guard/mod.rs: the check of a request's framing headers, and the rewriting of the
-- identity headers. The header map is the interface of Http; names are in lower case.

mod Tests
pub mod Accepted
use propylea.Prelude.{
  Bool, Bytes, List, Option, Result, Text, [], any, before_char, codes, contains_char, ends_with,
  err, if◌then◌else◌, ltb, none, not, ok, ok_or, parse_u64, some, split, text_eq,
  to_ascii_lowercase, to_decimal, trim, ℕ, ◌&&◌, ◌*◌, ◌++◌, ◌==◌, ◌>>=◌, ◌>>◌, ◌||◌, ◌∷◌,
}
use propylea.Http.{HeaderApi, contains_key, get_str}

pub data FramingViolation : Type 0 where
  conflicting_framing multiple_content_lengths : FramingViolation
  malformed_content_length unsupported_transfer_encoding : Text → FramingViolation
  illegal_header_character : Text → FramingViolation
  payload_too_large : (limit requested : ℕ) → FramingViolation

unfoldable pub status_code : FramingViolation → ℕ
status_code (payload_too_large limit requested) = 413
status_code v = 400

-- The `Display` that `thiserror` writes. The two section signs are code point 0xa7.
unfoldable pub display_violation : FramingViolation → Text
display_violation conflicting_framing =
    codes
      "RFC 9112 §6.1 / RFC 7230 §3.3.3: Request contains conflicting Transfer-Encoding and Content-Length headers (HTTP Desync Attack)"
display_violation multiple_content_lengths =
    codes "Multiple conflicting Content-Length headers detected"
display_violation (malformed_content_length s) =
    codes "Malformed Content-Length header: '" ++ (s ++ codes "'")
display_violation (unsupported_transfer_encoding s) =
    codes "Unsupported or malformed Transfer-Encoding: '" ++ (s ++ codes "'")
display_violation (illegal_header_character s) =
    codes "Illegal control character (NUL, ANSI ESC, or bare CR/LF) detected in header '"
    ++ (s ++ codes "'")
display_violation (payload_too_large limit requested) =
    codes "Payload exceeds maximum allowable body size: "
    ++ (to_decimal requested ++ (codes " bytes > " ++ (to_decimal limit ++ codes " bytes")))

-- The status and body of `public_response`.
unfoldable pub public_response : FramingViolation → ℕ × Text
unfolding status_code display_violation
public_response v =
    (status_code v, codes "400 Bad Request: " ++ (display_violation v ++ codes "\n"))

pub record FramingGuard : Type 0 where
  pub max_body_bytes : ℕ

unfoldable pub default_guard : FramingGuard
default_guard = record { max_body_bytes = 10 * 1024 * 1024 }

abbrev pub Check : Type 0
Check = Result (Unit {0}) FramingViolation

abbrev pub pass : Check
pass = ok tt

abbrev pub is_illegal_byte : ℕ → Bool
is_illegal_byte b = (ltb b 0x20 && not (b == b'\t')) || b == 0x7f

unfoldable pub check_header_value_bytes : Text → Bytes → Check
check_header_value_bytes name bytes =
    if any is_illegal_byte bytes then err (illegal_header_character name) else pass

abbrev pub content_length : Text
content_length = codes "content-length"

abbrev pub transfer_encoding : Text
transfer_encoding = codes "transfer-encoding"

abbrev pub non_ascii_length : FramingViolation
non_ascii_length = malformed_content_length (codes "Non-ASCII Content-Length")

-- The rest of `split(',')` against its first part, all trimmed.
unfoldable pub same_parts : Text → List Text → Check
same_parts first [] = pass
same_parts first (part ∷ parts) =
    let rest = same_parts first parts in
    if text_eq (trim part) first then rest else err multiple_content_lengths

-- `split(',').next()`
abbrev pub first_part : Text → Text
first_part s = before_char b',' s

abbrev pub tail_parts : List Text → List Text
tail_parts [] = []
tail_parts (p ∷ ps) = ps

-- `if cl_str.contains(',')`: the parts must be one text.
abbrev pub check_parts : Text → Check
check_parts cl_str =
    if contains_char cl_str b','
    then same_parts (trim (first_part cl_str)) (tail_parts (split b',' cl_str))
    else pass

abbrev pub check_limit : FramingGuard → ℕ → Check
check_limit g parsed_len =
    if ltb g.max_body_bytes parsed_len
    then err (payload_too_large g.max_body_bytes parsed_len)
    else pass

-- What follows the comparison of the values, on the text of the first.
unfoldable pub check_length_text : FramingGuard → Text → Check
unfolding same_parts
check_length_text g cl_str = do
  check_parts cl_str
  parsed_len ← ok_or (parse_u64 (trim (first_part cl_str))) (malformed_content_length cl_str)
  check_limit g parsed_len

-- `*method == Method::GET || *method == Method::HEAD`
abbrev pub is_get_or_head : Text → Bool
is_get_or_head method = text_eq method (codes "GET") || text_eq method (codes "HEAD")

abbrev positive_length : ℕ → FramingViolation
positive_length len =
    malformed_content_length
      (codes "GET/HEAD method carries Content-Length > 0 (" ++ (to_decimal len ++ codes " bytes)"))

-- The innermost tests of step 5: a text that is no number passes.
unfoldable pub check_get_length : Option Text → Check
check_get_length none = pass
check_get_length (some cl_val) = elim (parse_u64 (trim cl_val)) [
  | none ↦ pass
  | some len ↦ if ltb 0 len then err (positive_length len) else pass
]

module _ (api : HeaderApi) where
  open api use {HeaderMap, HeaderValue, get_all, iter, to_str, as_bytes}

  -- The values behind the first, which must be the same text once trimmed.
  unfoldable pub same_values : Text → List HeaderValue → Check
  same_values first [] = pass
  same_values first (val ∷ vals) = do
    s ← ok_or (to_str val) non_ascii_length
    let rest = same_values first vals
    if text_eq (trim s) (trim first) then rest else err multiple_content_lengths

  -- `cl_values` is not empty where this is called: its first value is an argument.
  unfoldable pub validate_content_length : FramingGuard → HeaderValue → List HeaderValue → Check
  unfolding same_values check_length_text
  validate_content_length g val vals = do
    cl_str ← ok_or (to_str val) non_ascii_length
    same_values cl_str vals
    check_length_text g cl_str

  -- Step 2, which is skipped with no Content-Length.
  unfoldable pub check_content_length : FramingGuard → List HeaderValue → Check
  unfolding validate_content_length
  check_content_length g [] = pass
  check_content_length g (val ∷ vals) = validate_content_length g val vals

  -- Step 3, the loop over the Transfer-Encoding values.
  unfoldable pub check_transfer_encoding : List HeaderValue → Check
  check_transfer_encoding [] = pass
  check_transfer_encoding (te ∷ tes) = do
    te_str ← ok_or (to_str te) (unsupported_transfer_encoding (codes "Non-ASCII Transfer-Encoding"))
    let rest = check_transfer_encoding tes
    if ends_with (to_ascii_lowercase (trim te_str)) (codes "chunked")
        then rest
        else err (unsupported_transfer_encoding te_str)

  -- Step 4, the loop over all headers.
  unfoldable pub check_hygiene : List (Text × HeaderValue) → Check
  unfolding check_header_value_bytes
  check_hygiene [] = pass
  check_hygiene ((name, val) ∷ headers) = do
    check_header_value_bytes name (as_bytes val)
    check_hygiene headers

  -- Step 5.
  unfoldable pub check_method : HeaderMap → Text → Check
  unfolding check_get_length
  check_method headers method =
      if is_get_or_head method && contains_key api content_length headers
      then check_get_length (get_str api content_length headers)
      else pass

  unfoldable pub validate_headers : FramingGuard → HeaderMap → Text → Check
  unfolding check_content_length check_transfer_encoding check_hygiene check_method
  validate_headers g headers method =
      if contains_key api content_length headers && contains_key api transfer_encoding headers
      then err conflicting_framing
      else (do
        check_content_length g (get_all content_length headers)
        check_transfer_encoding (get_all transfer_encoding headers)
        check_hygiene (iter headers)
        check_method headers method)
