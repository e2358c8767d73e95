-- ===== src/Float.antt =====
-- The comparisons of Python floats. Every finite double is a whole multiple of 2 ^ -1074, so a
-- finite value is given exactly by an integer; not-a-number differs from itself and is in no order.
use esp32_home_display.Prelude.{
  ℕ, ◌*◌, ◌^◌, ◌≡◌, ◌≢◌, refl, Bool, true, false, ℤ, pos, ltb_ℤ, eqb_ℤ, ◌-ℤ◌, eqb_ℤ_refl,
  if◌then◌else◌,
}

pub data Float : Type 0 where
  finite : ℤ → Float
  infinity : Float
  neg_infinity : Float
  nan : Float

-- The number of units in 1.0.
unfoldable pub units : ℕ
units = 2 ^ 1074

-- `float(n)` and `-float(n)`, for a small n
abbrev pub whole : ℕ → Float
whole n = finite (pos (n * units))

unfoldable pub neg_whole : ℕ → Float
neg_whole n = finite (pos 0 -ℤ pos (n * units))

unfoldable pub flt : Float → Float → Bool
flt (finite a) (finite b) = ltb_ℤ a b
flt (finite a) infinity = true
flt neg_infinity (finite b) = true
flt neg_infinity infinity = true
flt _ _ = false

unfoldable pub feq : Float → Float → Bool
feq (finite a) (finite b) = eqb_ℤ a b
feq infinity infinity = true
feq neg_infinity neg_infinity = true
feq _ _ = false

-- Python's `min` and `max` keep the first argument unless the second is smaller or larger.
unfoldable pub min_float : Float → Float → Float
min_float a b = if flt b a then b else a

unfoldable pub max_float : Float → Float → Float
max_float a b = if flt a b then b else a

-- Only not-a-number differs from itself.
pub feq_refl : (a : Float) → a ≢ nan → feq a a ≡ true
unfolding feq
feq_refl (finite a) h = eqb_ℤ_refl a
feq_refl infinity h = refl
feq_refl neg_infinity h = refl
feq_refl nan h = absurd (h refl)
