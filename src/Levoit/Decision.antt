-- ===== src/Levoit/Decision.antt =====
-- The target that is commanded: within the limits, and far enough from what the device already has.
use native.Mathlib.Nat.{
  div-le_of_le-mul, le-div_iff_mul-le, mul_comm, mul-le-mul_right, div-add-mod',
}
use esp32_home_display.Prelude.{
  ℕ, ◌+◌, ◌*◌, ◌/◌, ◌%◌, ◌≤◌, ◌≡◌, refl, not, ◌||◌, inl, inr, Bool, true, false, Option, none, some,
  [], ◌∷◌, ℤ, pos, negsuc, ltb, arith, Bool-cases, Option-cases, ◌⊎◌,
}
use esp32_home_display.Float.{
  min_float, max_float, Float, finite, infinity, neg_infinity, nan, units, flt,
}
use esp32_home_display.Arithmetic.{Arithmetic}
use esp32_home_display.Levoit.{
  Action, set, skip, last_command, device_target, Limits, round_half_even, round_clamped,
  is_too_near, nearest_ref, decide, decision_for, compute_decision, current_ah_of,
  LevoitControlDecision, target_relative_humidity,
}

-- Rounding up happens only if there is a rest, and then the upper limit is not reached yet.
below_high : (one n high : ℕ) → n ≤ high * one → 1 ≤ n % one → n / one + 1 ≤ high
below_high one n high below rest = elim (Bool-cases (ltb (n / one) high)) [
  | inl e ↦ ground arith
  | inr e ↦ absurd (
      omega
        (arith, div-add-mod' n one, mul-le-mul_right {m = high} {n = n / one} one (ground arith)))
]

round_half_even-Between :
    (one n low high : ℕ)
    → 1 ≤ one
    → low * one ≤ n
    → n ≤ high * one
    → (low ≤ round_half_even one n) × (round_half_even one n ≤ high)
unfolding round_half_even
round_half_even-Between one n low high h above below =
    let at_least_low : low ≤ n / one = (le-div_iff_mul-le {k = one} {x = low} {y = n} h).1 above in
    let at_most_high : n / one ≤ high =
      div-le_of_le-mul one {m = n} {n = high} (omega (arith, mul_comm one high, below)) in
    elim (Bool-cases (ltb (n % one * 2) one)) [
      | inl e ↦ rw e (at_least_low, at_most_high)
      | inr e ↦
          let rest : 1 ≤ n % one = ground arith in
          let more = below_high one n high below rest in
          ground (arith, at_least_low, at_most_high, more)
    ]

units_pos : 1 ≤ units
unfolding units
units_pos = omega arith

clamped_lem :
    (a b : ℕ) (ideal : Float)
    → a ≤ b
    → (n : ℕ) × (max_float (finite (pos a)) (min_float (finite (pos b)) ideal) ≡ finite (pos n))
      × (a ≤ n)
      × (n ≤ b)
unfolding min_float max_float flt
clamped_lem a b (finite (pos z)) h = elim (Bool-cases (ltb z b)) [
  | inl e ↦ elim (Bool-cases (ltb a z)) [
    | inl f ↦ (z, ground arith, ground arith, ground arith)
    | inr f ↦ (a, ground arith, omega arith, h)
  ]
  | inr e ↦ elim (Bool-cases (ltb a b)) [
    | inl f ↦ (b, ground arith, h, omega arith)
    | inr f ↦ (a, ground arith, omega arith, h)
  ]
]
clamped_lem a b (finite (negsuc z)) h = (a, ground arith, omega arith, h)
clamped_lem a b infinity h = elim (Bool-cases (ltb a b)) [
  | inl f ↦ (b, ground arith, h, omega arith)
  | inr f ↦ (a, ground arith, omega arith, h)
]
clamped_lem a b neg_infinity h = (a, ground arith, omega arith, h)
clamped_lem a b nan h = elim (Bool-cases (ltb a b)) [
  | inl f ↦ (b, ground arith, h, omega arith)
  | inr f ↦ (a, ground arith, omega arith, h)
]

round_clamped-Between :
    (minimum maximum : ℕ) (ideal : Float)
    → minimum ≤ maximum
    → (minimum ≤ round_clamped minimum maximum ideal)
      × (round_clamped minimum maximum ideal ≤ maximum)
unfolding round_clamped
round_clamped-Between minimum maximum ideal h =
    let (n, e, above, below) =
      clamped_lem (minimum * units) (maximum * units) ideal (mul-le-mul_right units h) in
    rw (round_clamped, e) (round_half_even-Between units n minimum maximum units_pos above below)

-- The computation ended in an exception.
abbrev pub raises {ℓ} : {A : Type ℓ} → Option A → Bool
raises none = true
raises (some a) = false

abbrev pub is_set : Action → Bool
is_set set = true
is_set skip = false

-- The reference is there and too near.
abbrev pub near_any : Float → ℕ → Option ℤ → Bool
near_any threshold commanded none = false
near_any threshold commanded (some ref) = is_too_near threshold commanded ref

decide_by_refs :
    (threshold : Float) (c : ℕ) (ah : Option Float) (ideal : Float) (last device : Option ℤ)
    → ((decide ah ideal c (
          nearest_ref threshold c
            ((last, last_command) ∷ (device, device_target) ∷ []))).commanded_humidity
        ≡ some c)
      × (is_set
            (decide ah ideal c (
              nearest_ref threshold c ((last, last_command) ∷ (device, device_target) ∷ []))).action
          ≡ not (near_any threshold c last || near_any threshold c device))
decide_by_refs threshold c ah ideal none none = unfold decide nearest_ref in (refl, refl)
decide_by_refs threshold c ah ideal none (some d) = elim (Bool-cases (is_too_near threshold c d)) [
  | inl e ↦ unfold decide nearest_ref in rw e (refl, refl)
  | inr e ↦ unfold decide nearest_ref in rw e (refl, refl)
]
decide_by_refs threshold c ah ideal (some l) none = elim (Bool-cases (is_too_near threshold c l)) [
  | inl e ↦ unfold decide nearest_ref in rw e (refl, refl)
  | inr e ↦ unfold decide nearest_ref in rw e (refl, refl)
]
decide_by_refs threshold c ah ideal (some l) (some d) =
    elim (Bool-cases (is_too_near threshold c l)) [
      | inl e ↦ unfold decide nearest_ref in rw e (refl, refl)
      | inr e ↦ elim (Bool-cases (is_too_near threshold c d)) [
        | inl f ↦ unfold decide nearest_ref in rw (e, f) (refl, refl)
        | inr f ↦ unfold decide nearest_ref in rw (e, f) (refl, refl)
      ]
    ]

-- What a decision names and does: a target within the limits, which is to be set exactly if it is not
-- too near to the last command and to the device's own target.
pub record IsExact (limits : Limits) (last device : Option ℤ) (d : LevoitControlDecision)
    : Type 0 where
  pub commanded : ℕ
  pub commands : d.commanded_humidity ≡ some commanded
  pub at_least : limits.minimum_humidity ≤ commanded
  pub at_most : commanded ≤ limits.maximum_humidity
  pub sets :
      is_set d.action
      ≡ not (
          near_any limits.humidity_change_threshold commanded last
          || near_any limits.humidity_change_threshold commanded device)

decision_for-IsExact :
    (limits : Limits) (last device : Option ℤ) (ah : Option Float) (ideal : Float)
    → limits.minimum_humidity ≤ limits.maximum_humidity
    → IsExact limits last device (decision_for limits last device ah ideal)
unfolding decision_for
decision_for-IsExact limits last device ah ideal le =
    let c = round_clamped limits.minimum_humidity limits.maximum_humidity ideal in
    let (low, high) =
      round_clamped-Between limits.minimum_humidity limits.maximum_humidity ideal le in
    let (commands, sets) = decide_by_refs limits.humidity_change_threshold c ah ideal last device in
    record { commanded = c; commands = commands; at_least = low; at_most = high; sets = sets }

module _ (a : Arithmetic) where
  -- Without an exception of a formula there is a decision.
  compute_decision-decision_for :
      (t : Float) (h : Option Float) (target : Float) (limits : Limits) (last device : Option ℤ)
      → (raises (current_ah_of a t h) || raises (target_relative_humidity a t target) ≡ true
          × compute_decision a (some t) h target limits last device ≡ none)
        ⊎ ((ah : Option Float) × (ideal : Float) × (raises (current_ah_of a t h)
                || raises (target_relative_humidity a t target)
              ≡ false)
            × (compute_decision a (some t) h target limits last device
                ≡ some (decision_for limits last device ah ideal)))
  unfolding compute_decision
  compute_decision-decision_for t h target limits last device =
      elim (Option-cases (current_ah_of a t h)) [
        | inl e ↦ inl (rw e refl, rw e refl)
        | inr (ah, e) ↦ elim (Option-cases (target_relative_humidity a t target)) [
          | inl f ↦ inl (rw (e, f) refl, rw (e, f) refl)
          | inr (ideal, f) ↦ inr (ah, ideal, rw (e, f) refl, rw (e, f) refl)
        ]
      ]

abbrev pub IsExactIf : Bool → Limits → Option ℤ → Option ℤ → Option LevoitControlDecision → Type 0
IsExactIf raised limits last device none = raised ≡ true
IsExactIf raised limits last device (some d) = (raised ≡ false) × IsExact limits last device d

pub IsExactIf-some :
    (raised : Bool) (limits : Limits) (last device : Option ℤ) (o : Option LevoitControlDecision)
    (d : LevoitControlDecision)
    → IsExactIf raised limits last device o
    → o ≡ some d
    → IsExact limits last device d
IsExactIf-some raised limits last device none d h e = absurd (ground (arith, e))
IsExactIf-some raised limits last device (some d') d h e = same d' d h.1 (some_injective d' d e)
  where
    some_injective : (x y : LevoitControlDecision) → some x ≡ some y → x ≡ y
    some_injective x y e = cc

    same :
        (x y : LevoitControlDecision)
        → IsExact limits last device x
        → x ≡ y
        → IsExact limits last device y
    same x y h e = rw e at h

pub compute_decision_exact :
    (a : Arithmetic) (temperature_c : Float) (humidity_pct : Option Float) (target : Float)
    (limits : Limits) (last device : Option ℤ)
    → limits.minimum_humidity ≤ limits.maximum_humidity
    → IsExactIf
        (raises (current_ah_of a temperature_c humidity_pct)
          || raises (target_relative_humidity a temperature_c target))
        limits
        last
        device
        (compute_decision a (some temperature_c) humidity_pct target limits last device)
compute_decision_exact a t h target limits last device le =
    elim (compute_decision-decision_for a t h target limits last device) [
      | inl (raised, e) ↦ rw e raised
      | inr (ah, ideal, quiet, e) ↦
          rw e (quiet, decision_for-IsExact limits last device ah ideal le)
    ]
