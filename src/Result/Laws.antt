-- ===== src/Result/Laws.antt =====
-- A call that uses the database has returned or raised: to split on it and keep the equation.
use esp32_home_display.Prelude.{arith, ◌⊎◌, inl, inr, ◌≡◌, refl}
use esp32_home_display.Result.{Error, Result, ok, err, and_then}

module _ {D A : Type 0} where
  pub Exec-cases :
      (r : Result A × D)
      → ((a : A) × (d : D) × (r ≡ (ok a, d))) ⊎ ((e : Error) × (d : D) × (r ≡ (err e, d)))
  Exec-cases (ok a, d) = inl (a, d, refl)
  Exec-cases (err e, d) = inr (e, d, refl)

pub Result-cases {ℓ} :
    {A : Type ℓ} (r : Result A) → ((a : A) × (r ≡ ok a)) ⊎ ((e : Error) × (r ≡ err e))
Result-cases (ok a) = inl (a, refl)
Result-cases (err e) = inr (e, refl)

-- A chain that gives a result did so through its first step.
pub and_then-ok {ℓ κ} :
    {A : Type ℓ} {B : Type κ} (r : Result A) (f : A → Result B) (b : B)
    → and_then r f ≡ ok b
    → (a : A) × (r ≡ ok a) × (f a ≡ ok b)
and_then-ok (ok a) f b h = (a, refl, h)
and_then-ok (err e) f b h = absurd (ground arith)
