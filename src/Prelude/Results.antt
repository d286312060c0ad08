-- ===== src/Prelude/Results.antt =====
-- The result of code that can end in `fatal`, and chains of such code.
use mathlib.Core.Path.{Path, ap, subst, ◌≡◌, refl}
use mathlib.Core.Logic.{◌≢◌, ◌⊎◌, inl, inr}

-- `failed e`: the process has called `fatal` (or thrown), with the reason `e`.
pub data Result {ℓ κ} (E : Type ℓ) (A : Type κ) : Type (ℓ ⊔ κ) where
  ok : A → Result E A
  failed : E → Result E A

infixl 5 ◌>>=◌
abbrev pub ◌>>=◌ {ℓ κ μ} :
    {E : Type ℓ} {A : Type κ} {B : Type μ} → Result E A → (A → Result E B) → Result E B
ok a >>= f = f a
failed e >>= f = failed e

pub Result-cases {ℓ κ} :
    {E : Type ℓ} {A : Type κ} (r : Result E A) → ((a : A) × (r ≡ ok a)) ⊎ ((e : E) × (r ≡ failed e))
Result-cases (ok a) = inl (a, refl)
Result-cases (failed e) = inr (e, refl)

-- Inversion of a successful chain.
pub >>=-eq-ok {ℓ κ μ} :
    {E : Type ℓ} {A : Type κ} {B : Type μ} {b : B} (first : Result E A) (next : A → Result E B)
    → (first >>= next) ≡ ok b
    → (a : A) × (first ≡ ok a) × (next a ≡ ok b)
>>=-eq-ok (failed e) next = λ h. cc h
>>=-eq-ok (ok a) next = λ h. (a, refl, h)

-- A chain does not fail with `e` if neither of its parts does.
pub >>=-ne-failed {ℓ κ μ} :
    {E : Type ℓ} {A : Type κ} {B : Type μ} {e : E} (first : Result E A) (next : A → Result E B)
    → first ≢ failed e
    → ((a : A) → first ≡ ok a → next a ≢ failed e)
    → (first >>= next) ≢ failed e
>>=-ne-failed (ok a) next _ g = g a refl
>>=-ne-failed (failed d) next f _ = λ h. f (cc h)

-- What holds of a result holds of what the code returned.
pub transport_ok {ℓ κ μ} :
    {E : Type ℓ} {A : Type κ} (P : A → Type μ) {a b : A}
    → P a
    → Path (Result E A) (ok a) (ok b)
    → P b
transport_ok {E = E} {A = A} P {a} {b} p h = subst P (ap (of a) h) p
  where
    of : A → Result E A → A
    of d (ok c) = c
    of d (failed e) = d
