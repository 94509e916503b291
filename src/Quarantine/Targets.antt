-- ===== src/Quarantine/Targets.antt =====
-- src/quarantine/cli/parsers.rs: durations, targets, exclusions and log lines, as read from an
-- operator's text. Lowering is on ASCII letters: no other letter lowers to a digit or to one of
-- the five suffixes, so that only the text of an error could differ.
pub mod Duration
use propylea.Quarantine.Net.{NetApi, QuarantineApi}
use propylea.Prelude.{
  Bool, List, Option, Result, Text, [], codes, contains, contains_char, ends_with, false,
  if◌then◌else◌, is_empty, length, none, ok, ok_or, parse_u64, some, split_by, split_whitespace,
  starts_with_char, strip_prefix, take, to_ascii_lowercase, trim, trim_by, true, u64_mod, ℕ, ◌%◌,
  ◌*◌, ◌++◌, ◌-◌, ◌==◌, ◌>>=◌, ◌>>◌, ◌||◌, ◌∷◌,
}

-- `ends_with(c)`, and the text without its last character
abbrev pub ends_with_char : Text → ℕ → Bool
ends_with_char s c = ends_with s (c ∷ [])

abbrev pub without_last : Text → Text
without_last s = take (length s - 1) s

unfoldable pub unit_of : Text → Option ℕ
unit_of s =
    if ends_with_char s b's'
    then some 1
    else if ends_with_char s b'm'
    then some 60
    else if ends_with_char s b'h'
    then some 3600
    else if ends_with_char s b'd'
    then some 86400
    else if ends_with_char s b'w'
    then some (7 * 86400)
    else none

abbrev pub unrecognized : Text → Text
unrecognized s = codes "Unrecognized duration format: '" ++ (s ++ codes "'")

abbrev pub invalid_number : Text → Text
invalid_number s = codes "Invalid duration number: '" ++ (s ++ codes "'")

-- The part behind the plain number: a number and a unit. The product wraps at 64 bits.
unfoldable pub parse_with_unit : Text → Result ℕ Text
unfolding unit_of
parse_with_unit s = do
  multiplier ← ok_or (unit_of s) (unrecognized s)
  num ← ok_or (parse_u64 (without_last s)) (invalid_number (without_last s))
  ok ((num * multiplier) % u64_mod)

unfoldable pub parse_lowered : Text → Result ℕ Text
unfolding parse_with_unit
parse_lowered s =
    if is_empty s
    then ok 86400
    else elim (parse_u64 s) [ some num ↦ ok num | none ↦ parse_with_unit s ]

unfoldable pub parse_duration_str : Text → Result ℕ Text
unfolding parse_lowered
parse_duration_str s = parse_lowered (to_ascii_lowercase (trim s))

module _ (net : NetApi) where
  abbrev pub with_target : Text → Option net.IpNet → Option (net.IpNet × Text)
  with_target target none = none
  with_target target (some n) = some (n, target)

  abbrev pub exact_net : Option net.IpAddr → Option net.IpNet
  exact_net none = none
  exact_net (some addr) = if net.is_ipv4 addr then net.new_net addr 32 else net.new_net addr 128

  abbrev pub parse_some : Option Text → Option net.IpNet
  parse_some none = none
  parse_some (some cidr) = net.parse_net cidr

  unfoldable pub resolve_trimmed : QuarantineApi net → Text → Bool → Option (net.IpNet × Text)
  resolve_trimmed phylax target exact =
      if is_empty target
      then none
      else if contains_char target b'/'
      then with_target target (net.parse_net target)
      else if exact
      then with_target target (exact_net (net.parse_addr target))
      else with_target target (parse_some (phylax.derive_quarantine_cidr target))

  unfoldable pub resolve_target_cidr : QuarantineApi net → Text → Bool → Option (net.IpNet × Text)
  unfolding resolve_trimmed
  resolve_target_cidr phylax target exact = resolve_trimmed phylax (trim target) exact

  abbrev pub excluded_by_addr : net.IpAddr → Option net.IpAddr → Bool
  excluded_by_addr addr none = false
  excluded_by_addr addr (some ex_addr) = net.same_addr ex_addr addr

  abbrev pub excluded_by : net.IpAddr → Text → Option net.IpNet → Bool
  excluded_by addr ex none = excluded_by_addr addr (net.parse_addr ex)
  excluded_by addr ex (some n) = net.contains_addr n addr

  unfoldable pub is_excluded : net.IpAddr → List Text → Bool
  is_excluded addr [] = false
  is_excluded addr (ex ∷ excludes) =
      let rest = is_excluded addr excludes in
      if is_empty (trim ex)
      then rest
      else if excluded_by addr (trim ex) (net.parse_net (trim ex))
      then true
      else rest

  abbrev is_some {ℓ} : {A : Type ℓ} → Option A → Bool
  is_some none = false
  is_some (some a) = true

  -- The test that both loops end with.
  abbrev pub is_address : Text → Bool
  is_address cleaned = is_some (net.parse_addr cleaned) || is_some (net.parse_net cleaned)

  abbrev is_ip_quote : ℕ → Bool
  is_ip_quote c = c == b'"' || c == 0x27 || c == b'[' || c == b']'

  abbrev is_token_quote : ℕ → Bool
  is_token_quote c = c == b'"' || c == 0x27 || c == b',' || c == b';' || c == b'[' || c == b']'

  abbrev is_part_break : ℕ → Bool
  is_part_break c = c == b' ' || c == b',' || c == b';' || c == b'\t'

  abbrev first_some : Option Text → Option Text → Option Text
  first_some none b = b
  first_some (some a) b = some a

  -- `strip_prefix("ip=").or_else(..)`
  abbrev ip_value : Text → Option Text
  ip_value part = first_some (strip_prefix part (codes "ip=")) (strip_prefix part (codes "ip:"))

  abbrev push_address : Text → List Text → List Text
  push_address cleaned rest = if is_address cleaned then cleaned ∷ rest else rest

  abbrev push_ip_value : Option Text → List Text → List Text
  push_ip_value none rest = rest
  push_ip_value (some val) rest = push_address (trim_by is_ip_quote val) rest

  unfoldable pub tagged_ips : List Text → List Text
  tagged_ips [] = []
  tagged_ips (part ∷ parts) = push_ip_value (ip_value (trim part)) (tagged_ips parts)

  unfoldable pub token_ips : List Text → List Text
  token_ips [] = []
  token_ips (token ∷ tokens) = push_address (trim_by is_token_quote token) (token_ips tokens)

  unfoldable pub extract_ips_from_trimmed : Text → List Text
  unfolding tagged_ips token_ips
  extract_ips_from_trimmed trimmed =
      let tagged = contains trimmed (codes "ip=") || contains trimmed (codes "ip:") in
      let ips = if tagged then tagged_ips (split_by is_part_break trimmed) else [] in
      if is_empty trimmed || starts_with_char trimmed b'#'
      then []
      else if is_empty ips
      then token_ips (split_whitespace trimmed)
      else ips

  unfoldable pub extract_ips_from_line : Text → List Text
  unfolding extract_ips_from_trimmed
  extract_ips_from_line line = extract_ips_from_trimmed (trim line)
