-- ===== src/Prelude/Members.antt =====
-- Membership in a filtered list.
use mathlib.Core.List.{
  List, [], ◌∷◌, Mem, mem-cons, not-mem-nil, Mem-prop, mem-cons_self, mem-cons_of_mem,
}
use mathlib.Core.Logic.{inl, inr}
use mathlib.Core.Logic.Or
use mathlib.Core.Path.{◌≡◌}
use mathlib.Core.Bool.{Bool, true}
use propylea.Prelude.Lists.{All, filter}
use propylea.Prelude.Tests.{Bool-cases}

module _ {ℓ} {A : Type ℓ} where
  pub mem-filter_of :
      (p : A → Bool) (a : A) (xs : List A) → Mem a xs → p a ≡ true → Mem a (filter p xs)
  mem-filter_of p a [] m h = absurd (not-mem-nil m)
  mem-filter_of p a (x ∷ xs) m h =
      Or.elim Mem-prop (mem-cons.0 m) (λ e. rw (← e, h) mem-cons_self)
        (λ later. elim (Bool-cases (p x)) [
          | inl yes_x ↦ rw yes_x (mem-cons_of_mem x (mem-filter_of p a xs later h))
          | inr no_x ↦ rw no_x (mem-filter_of p a xs later h)
        ])

  pub filter-All_test : (p : A → Bool) (xs : List A) → All (λ x. p x ≡ true) (filter p xs)
  filter-All_test p [] = tt
  filter-All_test p (x ∷ xs) = elim (Bool-cases (p x)) [
    | inl h ↦ rw h (h, filter-All_test p xs)
    | inr h ↦ rw h (filter-All_test p xs)
  ]

  pub filter-All {κ} :
      (P : A → Type κ) (p : A → Bool) (xs : List A) → All P xs → All P (filter p xs)
  filter-All P p [] a = tt
  filter-All P p (x ∷ xs) (a, rest) = elim (Bool-cases (p x)) [
    | inl h ↦ rw h (a, filter-All P p xs rest)
    | inr h ↦ rw h (filter-All P p xs rest)
  ]
