-- ===== src/Base/Result.antt =====
-- What a C++ call can come to: a value, an exception, or undefined behaviour.
use mathlib.Core.Path.{◌≡◌, refl}
use mathlib.Core.Logic.{◌⊎◌, inl, inr}
use distributed_oj.Base.Texts.{Text}

pub data Result {ℓ} (A : Type ℓ) : Type ℓ where
  ok : A → Result A
  throws : Text → Result A
  undefined : Result A

infixl 5 ◌>>=◌
abbrev pub ◌>>=◌ {ℓ κ} : {A : Type ℓ} {B : Type κ} → Result A → (A → Result B) → Result B
ok a >>= f = f a
throws what >>= f = throws what
undefined >>= f = undefined

pub Result-cases {ℓ} :
    {A : Type ℓ} (r : Result A)
    → ((a : A) × (r ≡ ok a)) ⊎ ((what : Text) × (r ≡ throws what)) ⊎ (r ≡ undefined)
Result-cases (ok a) = inl (a, refl)
Result-cases (throws what) = inr (inl (what, refl))
Result-cases undefined = inr (inr refl)
