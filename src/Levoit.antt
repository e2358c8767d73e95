-- ===== src/Levoit.antt =====
-- server/app/levoit_controller.py: the decision of the humidifier's controller. An operation on
-- floats may raise, and a text that the source builds is told by its kind.
pub mod Runner
pub mod Decision
pub mod Run
mod Tests
use esp32_home_display.Prelude.{
  ℕ, ◌+◌, ◌-◌, ◌*◌, ◌/◌, ◌%◌, ◌≡◌, Bool, true, false, ◌&&◌, Option, none, some, List, [], ◌∷◌, ℤ,
  pos, negsuc, ◌-ℤ◌, abs_ℤ, ltb, ◌==◌, if◌then◌else◌,
}
use esp32_home_display.Text.{Str, str_eq, upper}
use esp32_home_display.Float.{
  Float, finite, infinity, neg_infinity, nan, units, whole, flt, min_float, max_float,
}
use esp32_home_display.Arithmetic.{Arithmetic, ◌>>=◌}

pub data Action : Type 0 where
  set skip : Action

pub data Label : Type 0 where
  last_command device_target : Label

pub data DecisionReason : Type 0 where
  accepted temperature_missing : DecisionReason
  within_threshold : ℕ → ℤ → Label → DecisionReason

pub record LevoitControlDecision : Type 0 where
  pub action : Action
  pub reason : DecisionReason
  pub current_absolute_humidity : Option Float
  pub ideal_humidity : Option Float
  pub commanded_humidity : Option ℕ

-- The limits that a configuration sets; it allows percentages only.
pub record Limits : Type 0 where
  pub minimum_humidity : ℕ
  pub maximum_humidity : ℕ
  pub humidity_change_threshold : Float

-- `round` of so many units: to the nearest integer, from the middle to the even one
unfoldable pub round_half_even : ℕ → ℕ → ℕ
round_half_even one n =
    let low = n / one in
    let rest = n % one * 2 in
    if ltb rest one
    then low
    else if ltb one rest
    then low + 1
    else if low % 2 == 0
    then low
    else low + 1

-- `round(max(float(minimum_humidity), min(float(maximum_humidity), ideal)))`: what is rounded is
-- finite and not negative, since the minimum is.
unfoldable pub round_clamped : ℕ → ℕ → Float → ℕ
unfolding min_float max_float round_half_even
round_clamped minimum maximum ideal =
    elim (max_float (whole minimum) (min_float (whole maximum) ideal)) [
      | finite z ↦ elim z [ pos n ↦ round_half_even units n | negsuc n ↦ minimum ]
      | infinity ↦ minimum
      | neg_infinity ↦ minimum
      | nan ↦ minimum
    ]

abbrev pub skip_for :
    DecisionReason → Option Float → Option Float → Option ℕ → LevoitControlDecision
skip_for reason current_ah ideal commanded = record {
  action = skip;
  reason = reason;
  current_absolute_humidity = current_ah;
  ideal_humidity = ideal;
  commanded_humidity = commanded;
}

-- `abs(commanded - ref) < humidity_change_threshold`
unfoldable pub is_too_near : Float → ℕ → ℤ → Bool
is_too_near threshold commanded ref = flt (whole (abs_ℤ (pos commanded -ℤ ref))) threshold

-- The first of the references that is too near, with its label.
unfoldable pub nearest_ref : Float → ℕ → List (Option ℤ × Label) → Option (ℤ × Label)
unfolding is_too_near
nearest_ref threshold commanded [] = none
nearest_ref threshold commanded ((none, label) ∷ refs) = nearest_ref threshold commanded refs
nearest_ref threshold commanded ((some ref, label) ∷ refs) =
    let rest = nearest_ref threshold commanded refs in
    if is_too_near threshold commanded ref then some (ref, label) else rest

unfoldable pub decide : Option Float → Float → ℕ → Option (ℤ × Label) → LevoitControlDecision
decide current_ah ideal commanded (some (ref, label)) =
    skip_for (within_threshold commanded ref label) current_ah (some ideal) (some commanded)
decide current_ah ideal commanded none = record {
  action = set;
  reason = accepted;
  current_absolute_humidity = current_ah;
  ideal_humidity = some ideal;
  commanded_humidity = some commanded;
}

-- The decision for the relative humidity that is wanted.
unfoldable pub decision_for :
    Limits → Option ℤ → Option ℤ → Option Float → Float → LevoitControlDecision
unfolding round_clamped nearest_ref decide
decision_for limits last_commanded device_target_humidity current_ah ideal =
    let commanded = round_clamped limits.minimum_humidity limits.maximum_humidity ideal in
    let refs = (last_commanded, last_command) ∷ (device_target_humidity, device_target) ∷ [] in
    decide current_ah ideal commanded (nearest_ref limits.humidity_change_threshold commanded refs)

module _ (a : Arithmetic) where
  open a use {decimal, add, mul, div, exp}

  -- `_saturation_vapour_pressure`; none is an exception here and below.
  unfoldable pub saturation_vapour_pressure : Float → Option Float
  saturation_vapour_pressure temperature_c = do
    power ← div (mul (decimal 1767 2) temperature_c) (add temperature_c (decimal 2435 1))
    e ← exp power
    some (mul (decimal 6112 3) e)

  unfoldable pub absolute_humidity : Float → Float → Option Float
  unfolding saturation_vapour_pressure
  absolute_humidity temperature_c humidity_pct = do
    es ← saturation_vapour_pressure temperature_c
    share ← div (mul (mul (decimal 2167 1) es) humidity_pct) (decimal 1000 1)
    div share (add temperature_c (decimal 27315 2))

  unfoldable pub target_relative_humidity : Float → Float → Option Float
  unfolding saturation_vapour_pressure
  target_relative_humidity temperature_c target_ah = do
    es ← saturation_vapour_pressure temperature_c
    div (mul (mul target_ah (add temperature_c (decimal 27315 2))) (decimal 1000 1))
        (mul (decimal 2167 1) es)

  -- The current absolute humidity, which is `None` without a relative one.
  unfoldable pub current_ah_of : Float → Option Float → Option (Option Float)
  unfolding absolute_humidity
  current_ah_of temperature_c none = some none
  current_ah_of temperature_c (some humidity_pct) = do
    current_ah ← absolute_humidity temperature_c humidity_pct
    some (some current_ah)

  unfoldable pub compute_decision :
      Option Float
      → Option Float
      → Float
      → Limits
      → Option ℤ
      → Option ℤ
      → Option LevoitControlDecision
  unfolding decision_for current_ah_of target_relative_humidity
  compute_decision none humidity_pct target limits last_commanded device_target_humidity =
      some (skip_for temperature_missing none none none)
  compute_decision (some temperature_c) humidity_pct target limits last_commanded
        device_target_humidity =
      do
        current_ah ← current_ah_of temperature_c humidity_pct
        ideal ← target_relative_humidity temperature_c target
        some (decision_for limits last_commanded device_target_humidity current_ah ideal)
