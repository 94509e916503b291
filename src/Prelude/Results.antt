-- ===== src/Prelude/Results.antt =====
-- Results of fallible code, with the error type of each component.
use mathlib.Core.Path.{◌≡◌, refl}
use mathlib.Core.Logic.{◌⊎◌, inl, inr}
use mathlib.Core.Option.{Option, none, some}

pub data Result {ℓ κ} (A : Type ℓ) (E : Type κ) : Type (ℓ ⊔ κ) where
  ok : A → Result A E
  err : E → Result A E

infixl 5 ◌>>=◌ ◌>>◌
abbrev pub ◌>>=◌ {ℓ κ μ} :
    {A : Type ℓ} {B : Type κ} {E : Type μ} → Result A E → (A → Result B E) → Result B E
ok a >>= f = f a
err e >>= f = err e

abbrev pub ◌>>◌ {ℓ μ} : {B : Type ℓ} {E : Type μ} → Result (Unit {0}) E → Result B E → Result B E
m >> k = m >>= λ _. k

abbrev pub map_err {ℓ κ μ} :
    {A : Type ℓ} {E : Type κ} {F : Type μ} → (E → F) → Result A E → Result A F
map_err f (ok a) = ok a
map_err f (err e) = err (f e)

pub map_err-ok {ℓ κ μ} :
    {A : Type ℓ} {E : Type κ} {F : Type μ} (f : E → F) (r : Result A E) (a : A)
    → map_err f r ≡ ok a
    → r ≡ ok a
map_err-ok f (ok b) a h = cc
map_err-ok f (err e) a h = cc

-- `ok_or`
abbrev pub ok_or {ℓ μ} : {A : Type ℓ} {E : Type μ} → Option A → E → Result A E
ok_or none e = err e
ok_or (some a) e = ok a

pub ok_or-some {ℓ μ} :
    {A : Type ℓ} {E : Type μ} (o : Option A) (e : E) (a : A) → ok_or o e ≡ ok a → o ≡ some a
ok_or-some none e a h = cc
ok_or-some (some b) e a h = cc

pub Result-cases {ℓ μ} :
    {A : Type ℓ} {E : Type μ} (r : Result A E) → ((a : A) × (r ≡ ok a)) ⊎ ((e : E) × (r ≡ err e))
Result-cases (ok a) = inl (a, refl)
Result-cases (err e) = inr (e, refl)

-- A chain that succeeds has a first step that does.
pub >>=-eq-ok {ℓ κ μ} :
    {A : Type ℓ} {B : Type κ} {E : Type μ} {last : B} (step : Result A E) (next : A → Result B E)
    → step >>= next ≡ ok last
    → (first : A) × (step ≡ ok first) × (next first ≡ ok last)
>>=-eq-ok (ok first) next done = (first, refl, done)
>>=-eq-ok (err failure) next done = cc
