-- ===== src/Quarantine/Export/Escape.antt =====
-- src/quarantine/export/html.rs: what `html_escape` makes of a text, and that a browser reads the
-- text back from it.
use propylea.Quarantine.Export.Html.{html_escape}
use propylea.Prelude.{
  All, All-append, Bool, Text, [], ap, append_assoc, arith, codes, false, if◌then◌else◌, refl,
  replace_char, starts_with, suc, zero, ℕ, ◌++◌, ◌==◌, ◌||◌, ◌∙◌, ◌∷◌, ◌≡◌,
}

-- The characters that are markup in a page's text or in a quoted attribute.
abbrev pub is_markup : ℕ → Bool
is_markup c = c == b'<' || c == b'>' || c == b'"' || c == 0x27

abbrev pub IsInert : Text → Type 0
IsInert s = All (λ c. is_markup c ≡ false) s

-- What the five replacements make of one character.
abbrev pub escape_char : ℕ → Text
escape_char c =
    if c == b'&'
    then codes "&amp;"
    else if c == b'<'
    then codes "&lt;"
    else if c == b'>'
    then codes "&gt;"
    else if c == b'"'
    then codes "&quot;"
    else if c == 0x27
    then codes "&#39;"
    else c ∷ []

replace_char-append :
    (d : ℕ) (by s t : Text)
    → replace_char d by (s ++ t) ≡ replace_char d by s ++ replace_char d by t
replace_char-append d by [] t = refl
replace_char-append d by (c ∷ s) t = simp (replace_char-append d by s t, append_assoc)

html_escape-append : (s t : Text) → html_escape (s ++ t) ≡ html_escape s ++ html_escape t
unfolding html_escape
html_escape-append s t = simp replace_char-append

html_escape-one : (c : ℕ) → html_escape (c ∷ []) ≡ escape_char c
unfolding html_escape
html_escape-one c = ground arith

pub html_escape-cons : (c : ℕ) (s : Text) → html_escape (c ∷ s) ≡ escape_char c ++ html_escape s
html_escape-cons c s =
    html_escape-append (c ∷ []) s ∙ ap (λ t. t ++ html_escape s) (html_escape-one c)

escape_char-IsInert : (c : ℕ) → IsInert (escape_char c)
escape_char-IsInert c = ground arith

pub html_escape-IsInert : (s : Text) → IsInert (html_escape s)
html_escape-IsInert [] = unfold html_escape in tt
html_escape-IsInert (c ∷ s) =
    rw (html_escape-cons c s)
      (All-append _ (escape_char c) (html_escape s) (escape_char-IsInert c) (html_escape-IsInert s))

-- How a browser reads a text: the character that stands first, and what more of the text it takes.
abbrev pub first_char : Text → ℕ → ℕ × ℕ
first_char s c =
    if starts_with s (codes "&amp;")
    then (b'&', 4)
    else if starts_with s (codes "&lt;")
    then (b'<', 3)
    else if starts_with s (codes "&gt;")
    then (b'>', 3)
    else if starts_with s (codes "&quot;")
    then (b'"', 5)
    else if starts_with s (codes "&#39;")
    then (0x27, 4)
    else (c, 0)

-- The number is how many characters are passed over.
unfoldable pub unescape_from : ℕ → Text → Text
unescape_from n [] = []
unescape_from (suc n) (c ∷ s) = unescape_from n s
unescape_from zero (c ∷ s) = (first_char (c ∷ s) c).0 ∷ unescape_from (first_char (c ∷ s) c).1 s

unfoldable pub html_unescape : Text → Text
unfolding unescape_from
html_unescape s = unescape_from 0 s

unescape-plain :
    (c : ℕ) (s : Text) → (c == b'&') ≡ false → unescape_from 0 (c ∷ s) ≡ c ∷ unescape_from 0 s
unfolding unescape_from
unescape-plain c s h = rw h refl

unescape-escape_char :
    (c : ℕ) (s : Text) → unescape_from 0 (escape_char c ++ s) ≡ c ∷ unescape_from 0 s
unfolding unescape_from
unescape-escape_char c s = ground (arith, unescape-plain c s)

unescape-html_escape : (s : Text) → unescape_from 0 (html_escape s) ≡ s
unescape-html_escape [] = unfold html_escape unescape_from in refl
unescape-html_escape (c ∷ s) =
    rw (html_escape-cons c s)
      (unescape-escape_char c (html_escape s) ∙ ap (λ t. c ∷ t) (unescape-html_escape s))

-- Escaped text holds no `<`, `>`, `"` or `'`, and a reader of the five entities reads the text
-- itself from it.
pub html_escape_faithful :
    (s : Text) → IsInert (html_escape s) × (html_unescape (html_escape s) ≡ s)
html_escape_faithful s = (html_escape-IsInert s, unfold html_unescape in unescape-html_escape s)
