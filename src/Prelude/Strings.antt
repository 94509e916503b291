-- ===== src/Prelude/Strings.antt =====
-- Text as the list of its code points (`&str`, `String`), with what the sources use of the
-- standard library's `str` and `char`. A byte string is the list of its bytes.
use Prim.Native.Nat.{ℕ, ◌+◌}
use Prim.Native.Char.{code}
use Prim.Native.String.{String}
use mathlib.Core.Path.{◌≡◌, refl}
use mathlib.Core.Logic.{◌↔◌}
use mathlib.Core.Bool.{Bool, true, false, ◌&&◌, ◌||◌}
use mathlib.Core.List.{List, [], ◌∷◌, ◌++◌}
use mathlib.Core.Option.{Option, none, some}
use native.Mathlib.Omega.{arith}
use propylea.Prelude.Tests.{if◌then◌else◌, leb, ltb, ◌==◌}

abbrev pub Text : Type 0
Text = List ℕ

abbrev pub Bytes : Type 0
Bytes = List ℕ

-- The code points of a literal.
abbrev pub codes : String → Text
codes String.[] = []
codes (String.◌∷◌ c s) = code c ∷ codes s

abbrev pub text_eq : Text → Text → Bool
text_eq [] [] = true
text_eq [] (y ∷ ys) = false
text_eq (x ∷ xs) [] = false
text_eq (x ∷ xs) (y ∷ ys) = x == y && text_eq xs ys

pub text_eq→eq : (s t : Text) → text_eq s t ≡ true → s ≡ t
text_eq→eq [] [] h = refl
text_eq→eq [] (y ∷ ys) h = cc
text_eq→eq (x ∷ xs) [] h = cc
text_eq→eq (x ∷ xs) (y ∷ ys) h = ground (arith, text_eq→eq xs ys)

pub text_eq_refl : (s : Text) → text_eq s s ≡ true
text_eq_refl [] = refl
text_eq_refl (x ∷ xs) = ground (arith, text_eq_refl xs)

pub eq→text_eq : (s t : Text) → s ≡ t → text_eq s t ≡ true
eq→text_eq s t e = ground (arith, text_eq_refl s)

pub text_eq_iff : (s t : Text) → (text_eq s t ≡ true) ↔ (s ≡ t)
text_eq_iff s t = (text_eq→eq s t, eq→text_eq s t)

-- `char::len_utf8`
abbrev pub len_utf8 : ℕ → ℕ
len_utf8 c = if ltb c 0x80 then 1 else if ltb c 0x800 then 2 else if ltb c 0x10000 then 3 else 4

-- `str::len`, the length in bytes
abbrev pub utf8_len : Text → ℕ
utf8_len [] = 0
utf8_len (c ∷ s) = len_utf8 c + utf8_len s

pub utf8_len-append : (s t : Text) → utf8_len (s ++ t) ≡ utf8_len s + utf8_len t
utf8_len-append [] t = omega arith
utf8_len-append (c ∷ s) t = omega (arith, utf8_len-append s t)

-- `char::is_control`: the general category Cc
abbrev pub is_control : ℕ → Bool
is_control c = ltb c 0x20 || (leb 0x7f c && leb c 0x9f)

-- `char::is_whitespace`: the property White_Space
abbrev pub is_whitespace : ℕ → Bool
is_whitespace c =
    (leb 9 c && leb c 13)
    || c == 0x20
    || c == 0x85
    || c == 0xa0
    || c == 0x1680
    || (leb 0x2000 c && leb c 0x200a)
    || c == 0x2028
    || c == 0x2029
    || c == 0x202f
    || c == 0x205f
    || c == 0x3000

abbrev pub is_ascii_upper : ℕ → Bool
is_ascii_upper c = leb b'A' c && leb c b'Z'

abbrev pub is_ascii_alphanumeric : ℕ → Bool
is_ascii_alphanumeric c =
    (leb b'a' c && leb c b'z') || (leb b'A' c && leb c b'Z') || (leb b'0' c && leb c b'9')

abbrev pub to_lower : ℕ → ℕ
to_lower c = if is_ascii_upper c then c + 32 else c

-- `to_ascii_lowercase`
abbrev pub to_ascii_lowercase : Text → Text
to_ascii_lowercase [] = []
to_ascii_lowercase (c ∷ s) = to_lower c ∷ to_ascii_lowercase s

-- `trim_start_matches` by a predicate on characters
abbrev pub trim_start_by : (ℕ → Bool) → Text → Text
trim_start_by p [] = []
trim_start_by p (c ∷ s) = if p c then trim_start_by p s else c ∷ s

abbrev pub trim_start : Text → Text
trim_start = trim_start_by is_whitespace

-- `trim_end_matches`: a character goes if it and all behind it are matched.
abbrev pub trim_end_step : (ℕ → Bool) → ℕ → Text → Text
trim_end_step p c [] = if p c then [] else c ∷ []
trim_end_step p c (d ∷ s) = c ∷ d ∷ s

abbrev pub trim_end_by : (ℕ → Bool) → Text → Text
trim_end_by p [] = []
trim_end_by p (c ∷ s) = trim_end_step p c (trim_end_by p s)

-- `trim_matches`
abbrev pub trim_by : (ℕ → Bool) → Text → Text
trim_by p s = trim_end_by p (trim_start_by p s)

abbrev pub trim : Text → Text
trim = trim_by is_whitespace

abbrev pub starts_with : Text → Text → Bool
starts_with s [] = true
starts_with [] (p ∷ ps) = false
starts_with (c ∷ s) (p ∷ ps) = c == p && starts_with s ps

-- `starts_with` a character
abbrev pub starts_with_char : Text → ℕ → Bool
starts_with_char [] d = false
starts_with_char (c ∷ s) d = c == d

abbrev pub strip_prefix : Text → Text → Option Text
strip_prefix s [] = some s
strip_prefix [] (p ∷ ps) = none
strip_prefix (c ∷ s) (p ∷ ps) = if c == p then strip_prefix s ps else none

-- `contains` and `ends_with`
abbrev pub contains : Text → Text → Bool
contains [] p = starts_with [] p
contains (c ∷ s) p = starts_with (c ∷ s) p || contains s p

abbrev pub contains_char : Text → ℕ → Bool
contains_char [] d = false
contains_char (c ∷ s) d = c == d || contains_char s d

abbrev pub ends_with : Text → Text → Bool
ends_with [] p = text_eq [] p
ends_with (c ∷ s) p = text_eq (c ∷ s) p || ends_with s p

-- The part before the first `d`, and what follows it: `split_once`, and `find` with the slices
-- on both sides of the position found.
abbrev pub before_char : ℕ → Text → Text
before_char d [] = []
before_char d (c ∷ s) = if c == d then [] else c ∷ before_char d s

abbrev pub after_char : ℕ → Text → Text
after_char d [] = []
after_char d (c ∷ s) = if c == d then s else after_char d s

-- `split` at a character: a list that is never empty
abbrev pub split_cons : ℕ → List Text → List Text
split_cons c [] = (c ∷ []) ∷ []
split_cons c (w ∷ ws) = (c ∷ w) ∷ ws

abbrev pub split_by : (ℕ → Bool) → Text → List Text
split_by p [] = [] ∷ []
split_by p (c ∷ s) = let rest = split_by p s in if p c then [] ∷ rest else split_cons c rest

abbrev pub split : ℕ → Text → List Text
split d = split_by (λ c. c == d)

-- `split_whitespace`
abbrev pub non_empty : List Text → List Text
non_empty [] = []
non_empty ([] ∷ ws) = non_empty ws
non_empty ((c ∷ w) ∷ ws) = (c ∷ w) ∷ non_empty ws

abbrev pub split_whitespace : Text → List Text
split_whitespace s = non_empty (split_by is_whitespace s)

-- `join`
abbrev pub join : Text → List Text → Text
join sep [] = []
join sep (w ∷ []) = w
join sep (w ∷ v ∷ ws) = w ++ (sep ++ join sep (v ∷ ws))

-- `format!` and `push_str`: pieces of text, one behind the other.
abbrev pub concat : List Text → Text
concat [] = []
concat (w ∷ ws) = w ++ concat ws

-- A long literal in pieces.
unfoldable pub texts : List String → Text
texts [] = []
texts (w ∷ ws) = codes w ++ texts ws

-- `replace` of a character by a text
abbrev pub replace_char : ℕ → Text → Text → Text
replace_char d by [] = []
replace_char d by (c ∷ s) = (if c == d then by else c ∷ []) ++ replace_char d by s

-- `unwrap_or` on a text
abbrev pub unwrap_or_text : Text → Option Text → Text
unwrap_or_text d none = d
unwrap_or_text d (some t) = t

pub text_ne_sym : (s t : Text) → text_eq s t ≡ false → text_eq t s ≡ false
text_ne_sym s t h = ground (arith, text_eq_iff s t, text_eq_iff t s)
