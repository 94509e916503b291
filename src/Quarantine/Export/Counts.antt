-- ===== src/Quarantine/Export/Counts.antt =====
-- How often a character of markup stands in a text, and texts in which none stands.
use propylea.Quarantine.Export.Html.{append_dots, slice_to, truncated_agent}
use propylea.Quarantine.Export.Escape.{IsInert, is_markup}
use propylea.Prelude.{
  All, All-append, Bool, Bool-cases, IsDigit, List, Option, Option-cases, Text, [], all, arith,
  codes, concat, false, if◌then◌else◌, inl, inr, len_utf8, ltb, none, not, refl, some, suc,
  to_decimal, to_decimal-IsDigit, true, utf8_len, ℕ, ◌++◌, ◌+◌, ◌-◌, ◌==◌, ◌∷◌, ◌≡◌,
}

-- How often a character stands in a text.
abbrev pub count_char : ℕ → Text → ℕ
count_char d [] = 0
count_char d (c ∷ s) = let rest = count_char d s in if c == d then suc rest else rest

pub count_char-append :
    (d : ℕ) (s t : Text) → count_char d (s ++ t) ≡ count_char d s + count_char d t
count_char-append d [] t = omega arith
count_char-append d (c ∷ s) t = ground (arith, count_char-append d s t)

pub count_char-IsInert : (d : ℕ) (s : Text) → is_markup d ≡ true → IsInert s → count_char d s ≡ 0
count_char-IsInert d [] m h = refl
count_char-IsInert d (c ∷ s) m h = ground (arith, count_char-IsInert d s m h.1)

-- Between the constant texts `ps` stand inert ones `qs`, which do not count.
abbrev pub interleave : List Text → List Text → List Text
interleave [] qs = qs
interleave (p ∷ ps) [] = p ∷ ps
interleave (p ∷ ps) (q ∷ qs) = p ∷ q ∷ interleave ps qs

pub count-concat_inert :
    (d : ℕ) (qs : List Text) → is_markup d ≡ true → All IsInert qs → count_char d (concat qs) ≡ 0
count-concat_inert d [] m h = refl
count-concat_inert d (q ∷ qs) m h = omega (
  arith,
  count_char-append d q (concat qs),
  count_char-IsInert d q m h.0,
  count-concat_inert d qs m h.1,
)

pub count-concat_skip :
    (d : ℕ) (qs rs : List Text)
    → is_markup d ≡ true
    → All IsInert qs
    → count_char d (concat (qs ++ rs)) ≡ count_char d (concat rs)
count-concat_skip d [] rs m h = refl
count-concat_skip d (q ∷ qs) rs m h = omega (
  arith,
  count_char-append d q (concat (qs ++ rs)),
  count_char-IsInert d q m h.0,
  count-concat_skip d qs rs m h.1,
)

pub count-interleave :
    (d : ℕ) (ps qs : List Text)
    → count_char d (concat (interleave ps qs)) ≡ count_char d (concat ps) + count_char d (concat qs)
count-interleave d [] qs = omega arith
count-interleave d (p ∷ ps) [] = omega arith
count-interleave d (p ∷ ps) (q ∷ qs) = omega (
  arith,
  count_char-append d p (q ++ concat (interleave ps qs)),
  count_char-append d q (concat (interleave ps qs)),
  count_char-append d p (concat ps),
  count_char-append d q (concat qs),
  count-interleave d ps qs,
)

pub inert : (s : Text) → all (λ c. not (is_markup c)) s ≡ true → IsInert s
inert [] h = tt
inert (c ∷ s) h = (ground arith, inert s (ground arith))

pub digits-IsInert : (s : Text) → All IsDigit s → IsInert s
digits-IsInert [] h = tt
digits-IsInert (c ∷ s) h = (ground (arith, h.0), digits-IsInert s h.1)

pub decimal-IsInert : (n : ℕ) → IsInert (to_decimal n)
decimal-IsInert n = digits-IsInert _ (to_decimal-IsDigit n)

pub if-IsInert : (b : Bool) (s t : Text) → IsInert s → IsInert t → IsInert (if b then s else t)
if-IsInert true s t h k = h
if-IsInert false s t h k = k

pub slice_to-IsInert : (n : ℕ) (s t : Text) → IsInert s → slice_to n s ≡ some t → IsInert t
unfolding slice_to
slice_to-IsInert n s [] h e = tt
slice_to-IsInert n [] (x ∷ t) h e = ground arith
slice_to-IsInert n (c ∷ s) (x ∷ t) h e = elim (Option-cases (slice_to (n - len_utf8 c) s)) [
  | inl none_left ↦ ground (arith, none_left)
  | inr (u, some_left) ↦
      ground (arith, slice_to-IsInert (n - len_utf8 c) s u h.1 some_left, some_left)
]

pub dots-IsInert :
    (o : Option Text) (t : Text)
    → ((u : Text) → o ≡ some u → IsInert u)
    → append_dots o ≡ some t
    → IsInert t
dots-IsInert none t h e = cc
dots-IsInert (some u) t h e =
    let same : u ++ codes "..." ≡ t = cc in
    rw (← same) (All-append _ u (codes "...") (h u refl) (inert (codes "...") refl))

pub truncated_agent-IsInert : (s t : Text) → IsInert s → truncated_agent s ≡ some t → IsInert t
unfolding truncated_agent
truncated_agent-IsInert s t h e = elim (Bool-cases (ltb 40 (utf8_len s))) [
  | inl long ↦
      dots-IsInert (slice_to 40 s) t (λ u. slice_to-IsInert 40 s u h)
        (rw (long, truncated_agent) at e)
  | inr short ↦ ground (arith, short)
]
