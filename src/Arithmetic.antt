-- ===== src/Arithmetic.antt =====
-- Python's floating-point operations, as far as the source uses them: a division by zero and an
-- exponential that is too large raise, and the others give a value. What they compute is a parameter.
use esp32_home_display.Prelude.{ℕ, Option, none, some}
use esp32_home_display.Float.{Float}

-- `decimal m k` is the literal m / 10 ** k; `div` and `math.exp` are none where they raise.
pub record Arithmetic : Type 0 where
  pub decimal : ℕ → ℕ → Float
  pub add : Float → Float → Float
  pub sub : Float → Float → Float
  pub mul : Float → Float → Float
  pub div : Float → Float → Option Float
  pub exp : Float → Option Float

-- The bind of what may raise.
infixl 5 ◌>>=◌
abbrev pub ◌>>=◌ : {A B : Type 0} → Option A → (A → Option B) → Option B
none >>= f = none
some a >>= f = f a
