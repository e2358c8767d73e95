-- ===== src/Database/Keeps.antt =====
-- What a call leaves alone, whatever it gives or raises.
use esp32_home_display.Prelude.{◌≡◌, arith, inl, inr}
use esp32_home_display.Result.{Exec, ◌>>=◌}
use esp32_home_display.Result.Laws.{Exec-cases}

module _ {D X : Type 0} (view : D → X) where
  abbrev pub Keeps : {A : Type 0} → Exec D A → Type 0
  Keeps m = (d : D) → view (m d).1 ≡ view d

  pub bind-Keeps :
      {A B : Type 0} (m : Exec D A) (k : A → Exec D B)
      → Keeps m
      → ((a : A) → Keeps (k a))
      → Keeps (m >>= k)
  bind-Keeps m k h g d = elim (Exec-cases (m d)) [
    | inl (a, d1, e) ↦ ground (arith, h d, g a d1)
    | inr (x, d1, e) ↦ ground (arith, h d)
  ]
