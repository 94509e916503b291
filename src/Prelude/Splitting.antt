-- ===== src/Prelude/Splitting.antt =====
-- `split` at a character, and `join`, undo one another.
use propylea.Prelude.Tests.{==_iff, Bool-cases, ◌==◌}
use propylea.Prelude.Lists.{All}
use propylea.Prelude.Strings.{Text, before_char, contains_char, join, split, split_cons}
use Prim.Native.Nat.{ℕ}
use mathlib.Core.Path.{◌≡◌, refl, ap, ◌∙◌}
use mathlib.Core.Logic.{◌≢◌, inl, inr}
use mathlib.Core.Bool.{true}
use mathlib.Core.List.{List, [], ◌∷◌, ◌++◌}
use native.Mathlib.Omega.{arith}

abbrev pub NoChar : ℕ → Text → Type 0
NoChar d s = All (λ c. c ≢ d) s

split_cons-NoChar :
    (d c : ℕ) (ws : List Text) → c ≢ d → All (NoChar d) ws → All (NoChar d) (split_cons c ws)
split_cons-NoChar d c [] n h = ((n, tt), tt)
split_cons-NoChar d c (w ∷ ws) n h = ((n, h.0), h.1)

-- No part of a split holds the separator.
pub split-NoChar : (d : ℕ) (s : Text) → All (NoChar d) (split d s)
split-NoChar d [] = (tt, tt)
split-NoChar d (c ∷ s) = elim (Bool-cases (c == d)) [
  | inl e ↦ rw e (tt, split-NoChar d s)
  | inr n ↦ rw n (split_cons-NoChar d c (split d s) (ground arith) (split-NoChar d s))
]

-- A part with no separator, and the separator, come off the front.
pub split-append : (d : ℕ) (w s : Text) → NoChar d w → split d (w ++ (d ∷ s)) ≡ w ∷ split d s
split-append d [] s h = ground arith
split-append d (c ∷ w) s h = elim (Bool-cases (c == d)) [
  | inl e ↦ absurd (h.0 ((==_iff c d).0 e))
  | inr n ↦ rw (n, split-append d w s h.1)
]

split-one : (d : ℕ) (w : Text) → NoChar d w → split d w ≡ w ∷ []
split-one d [] h = refl
split-one d (c ∷ w) h = elim (Bool-cases (c == d)) [
  | inl e ↦ absurd (h.0 ((==_iff c d).0 e))
  | inr n ↦ rw (n, split-one d w h.1)
]

pub split-join :
    (d : ℕ) (w : Text) (ws : List Text)
    → All (NoChar d) (w ∷ ws)
    → split d (join (d ∷ []) (w ∷ ws)) ≡ w ∷ ws
split-join d w [] h = split-one d w h.0
split-join d w (v ∷ ws) h =
    split-append d w (join (d ∷ []) (v ∷ ws)) h.0 ∙ ap (◌∷◌ w) (split-join d v ws h.1)

split_cons-ne-nil : (c : ℕ) (ws : List Text) → split_cons c ws ≢ []
split_cons-ne-nil c [] = λ e. cc
split_cons-ne-nil c (w ∷ ws) = λ e. cc

pub split-ne-nil : (d : ℕ) (s : Text) → split d s ≢ []
split-ne-nil d [] = λ e. cc
split-ne-nil d (c ∷ s) = elim (Bool-cases (c == d)) [
  | inl e ↦ rw e (λ h. cc)
  | inr n ↦ rw n (split_cons-ne-nil c (split d s))
]

-- The text before the separator holds none, and an appended separator is found there.
pub before_char-NoChar : (d : ℕ) (s : Text) → NoChar d (before_char d s)
before_char-NoChar d [] = tt
before_char-NoChar d (c ∷ s) = elim (Bool-cases (c == d)) [
  | inl e ↦ rw e tt
  | inr n ↦ rw n ((λ e. ground arith), before_char-NoChar d s)
]

pub before_char-append : (d : ℕ) (w s : Text) → NoChar d w → before_char d (w ++ (d ∷ s)) ≡ w
before_char-append d [] s h = ground arith
before_char-append d (c ∷ w) s h = ground (arith, before_char-append d w s h.1)

pub before_char-NoChar_of : (d e : ℕ) (s : Text) → NoChar e s → NoChar e (before_char d s)
before_char-NoChar_of d e [] h = tt
before_char-NoChar_of d e (c ∷ s) h = ground (arith, before_char-NoChar_of d e s h.1)

pub contains_char-append : (d : ℕ) (w s : Text) → contains_char (w ++ (d ∷ s)) d ≡ true
contains_char-append d [] s = ground arith
contains_char-append d (c ∷ w) s = ground (arith, contains_char-append d w s)
