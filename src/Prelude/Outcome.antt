-- ===== src/Prelude/Outcome.antt =====
-- What a call of the program comes to: a value, a returned error, or a panic.
use mathlib.Core.Path.{◌≡◌, refl}
use mathlib.Core.Logic.{◌⊎◌, inl, inr}

pub data Result {ℓ} (A : Type ℓ) : Type ℓ where
  ok : A → Result A
  err : Result A
  panics : Result A

pub Result-cases {ℓ} :
    {A : Type ℓ} (r : Result A) → ((a : A) × (r ≡ ok a)) ⊎ ((r ≡ err) ⊎ (r ≡ panics))
Result-cases (ok a) = inl (a, refl)
Result-cases err = inr (inl refl)
Result-cases panics = inr (inr refl)
