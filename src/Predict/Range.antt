-- ===== src/Predict/Range.antt =====
-- The range of what is predicted, and the hours that it is predicted for.
use esp32_home_display.Prelude.{
  ℕ, ◌≡◌, ◌≢◌, refl, inl, inr, Bool, true, false, ◌&&◌, Option, none, some, List, [], ◌∷◌, leb, ltb,
  if◌then◌else◌, is_one_of, arith, Bool-cases, Option-cases, All, ap, sym, ◌∙◌,
}
use esp32_home_display.Float.{
  Float, flt, whole, units, finite, infinity, neg_infinity, nan, min_float, max_float,
}
use esp32_home_display.Text.{Str}
use esp32_home_display.Sync.{sorted}
use esp32_home_display.Database.{Row}
use esp32_home_display.Weather.{Point}
use esp32_home_display.Predict.{Numerics, ByHour, get_hour, hours, OmEntry, features, round_hour}
use esp32_home_display.Predict.Fit.{
  Models, Prediction, clamp_percent, calc_abs_humidity, calc_vpd, append_prediction, predict_hour,
  predict_loop, predict_all, fit_models,
}
use esp32_home_display.Predict.Route.{om_by_hour}
use esp32_home_display.Predict.Hours.{
  predicted, has_weather, is_one_of-wanted, wanted, is_one_of-sorted, is_one_of-hours,
  get_hour-om_by_hour,
}

flt_asym : (a b : Float) → flt a b ≡ true → flt b a ≡ false
unfolding flt
flt_asym (finite a) (finite b) h = ground arith
flt_asym (finite a) infinity h = refl
flt_asym (finite a) neg_infinity h = absurd (ground arith)
flt_asym (finite a) nan h = refl
flt_asym infinity (finite b) h = absurd (ground arith)
flt_asym infinity infinity h = refl
flt_asym infinity neg_infinity h = absurd (ground arith)
flt_asym infinity nan h = refl
flt_asym neg_infinity (finite b) h = refl
flt_asym neg_infinity infinity h = refl
flt_asym neg_infinity neg_infinity h = refl
flt_asym neg_infinity nan h = refl
flt_asym nan b h = absurd (ground arith)

flt_irrefl : (a : Float) → flt a a ≡ false
flt_irrefl a = elim (Bool-cases (flt a a)) [ inl e ↦ flt_asym a a e | inr e ↦ e ]

bounds_differ : flt (whole 0) (whole 100) ≡ true
unfolding flt units
bounds_differ = refl

nan_unordered : (a : Float) → flt a nan ≡ false
unfolding flt
nan_unordered (finite a) = refl
nan_unordered infinity = refl
nan_unordered neg_infinity = refl
nan_unordered nan = refl

-- Not below 0.0, not above 100.0, and a number.
abbrev pub IsPercent : Float → Type 0
IsPercent x = (flt x (whole 0) ≡ false) × (flt (whole 100) x ≡ false) × (x ≢ nan)

whole_is_number : (k : ℕ) → whole k ≢ nan
whole_is_number k e = absurd (cc e)

max_float-IsPercent : (m : Float) → flt (whole 100) m ≡ false → IsPercent (max_float (whole 0) m)
unfolding max_float
max_float-IsPercent m h = elim (Bool-cases (flt (whole 0) m)) [
  | inl e ↦ rw e (
    flt_asym (whole 0) m e,
    h,
    λ is_nan. absurd (ground (arith, e, ap (flt (whole 0)) is_nan, nan_unordered (whole 0))),
  )
  | inr e ↦
      rw e (flt_irrefl (whole 0), flt_asym (whole 0) (whole 100) bounds_differ, whole_is_number 0)
]

clamp_percent-IsPercent : (x : Float) → IsPercent (clamp_percent x)
unfolding clamp_percent min_float
clamp_percent-IsPercent x = elim (Bool-cases (flt x (whole 100))) [
  | inl e ↦ rw e (max_float-IsPercent x (flt_asym x (whole 100) e))
  | inr e ↦ rw e (max_float-IsPercent (whole 100) (flt_irrefl (whole 100)))
]

if_none :
    {A : Type 0} (b : Bool) (x : Option A) (a : A) → (if b then none else x) ≡ some a → x ≡ some a
if_none true x a h = absurd (ground arith)
if_none false x a h = h

-- What holds of the value of a computation holds of what it is known to give.
given : {A : Type 0} (P : A → Type 0) (o : Option A) (x p : A) → o ≡ some x → o ≡ some p → P x → P p
given P o x p e h px = moved P x p (some_injective x p (sym e ∙ h)) px
  where
    some_injective : {A : Type 0} (y z : A) → some y ≡ some z → y ≡ z
    some_injective y z k = cc

    moved : {A : Type 0} (P : A → Type 0) (y z : A) → y ≡ z → P y → P z
    moved P y z k py = rw k at py

module _ (n : Numerics) where
  predict_all-some :
      (om : ByHour OmEntry) (now : ℕ) (models : Option Models) (ps : List Prediction)
      → predict_all n om now models ≡ some ps
      → (m : Models) × (predict_loop n m om (round_hour now) (sorted (hours om)) ≡ some ps)
  unfolding predict_all
  predict_all-some om now none ps h = absurd (ground arith)
  predict_all-some om now (some m) ps h = (m, h)

  pub fit_models-some :
      (mac : Str) (now : ℕ) (om : ByHour OmEntry) (readings : List Row) (ps : List Prediction)
      → fit_models n mac now om readings ≡ some ps
      → (m : Models) × (predict_loop n m om (round_hour now) (sorted (hours om)) ≡ some ps)
  unfolding fit_models
  fit_models-some mac now om readings ps h = predict_all-some om now _ ps (if_none _ _ ps h)

  module _ (rounds : (x : Float) → IsPercent x → IsPercent (n.round x 1)) (models : Models) where
    -- A prediction that is made is for its hour, and its humidity is a percentage.
    predict_hour-IsPercent :
        (feat : List Float) (hour : ℕ) (p : Prediction)
        → predict_hour n models feat hour ≡ some p
        → (p.hour ≡ hour) × IsPercent p.humidity_pct
    unfolding predict_hour
    predict_hour-IsPercent feat hour p h = elim (Option-cases (models.model_t feat)) [
      | inl e ↦ absurd (ground (arith, h, e))
      | inr (t, e) ↦ elim (Option-cases (models.model_h feat)) [
        | inl f ↦ absurd (ground (arith, h, e, f))
        | inr (x, f) ↦ elim (Option-cases (calc_abs_humidity n.ops t (clamp_percent x))) [
          | inl g ↦ absurd (ground (arith, h, e, f, g))
          | inr (ah, g) ↦ elim (Option-cases (calc_vpd n.ops t (clamp_percent x))) [
            | inl k ↦ absurd (ground (arith, h, e, f, g, k))
            | inr (vpd, k) ↦
                given (λ q. (q.hour ≡ hour) × IsPercent q.humidity_pct)
                  (predict_hour n models feat hour)
                  (record {
                    hour = hour;
                    temperature_c = n.round t 1;
                    humidity_pct = n.round (clamp_percent x) 1;
                    abs_humidity = n.round ah 2;
                    vpd = n.round vpd 3;
                  })
                  p (rw (predict_hour, e, f, g, k) refl) h
                  (refl, rounds (clamp_percent x) (clamp_percent-IsPercent x))
          ]
        ]
      ]
    ]

    abbrev Wanted : ByHour OmEntry → ℕ → List ℕ → List Prediction → Type 0
    Wanted om start ks ps =
        (predicted ps ≡ wanted om start ks) × All (λ p. IsPercent p.humidity_pct) ps

    appended :
        (om : ByHour OmEntry) (start k : ℕ) (ks : List ℕ) (feat : List Float) (ps : List Prediction)
        → ((others : List Prediction)
            → predict_loop n models om start ks ≡ some others
            → Wanted om start ks others)
        → append_prediction (predict_hour n models feat k) (predict_loop n models om start ks)
          ≡ some ps
        → (predicted ps ≡ k ∷ wanted om start ks) × All (λ p. IsPercent p.humidity_pct) ps
    unfolding append_prediction
    appended om start k ks feat ps loop h = elim (Option-cases (predict_hour n models feat k)) [
      | inl e ↦ absurd (ground (arith, h, e))
      | inr (p, e) ↦ elim (Option-cases (predict_loop n models om start ks)) [
        | inl f ↦ absurd (ground (arith, h, e, f))
        | inr (others, f) ↦
            let (hour, percent) = predict_hour-IsPercent feat k p e in
            let (hours_are, percents) = loop others f in
            given
              (λ qs.
                (predicted qs ≡ k ∷ wanted om start ks) × All (λ p. IsPercent p.humidity_pct) qs)
              (append_prediction (predict_hour n models feat k) (predict_loop n models om start ks))
              (p ∷ others) ps (rw (e, f) refl) h (rw (hour, hours_are) refl, (percent, percents))
      ]
    ]

    pub predict_loop-Wanted :
        (om : ByHour OmEntry) (start : ℕ) (ks : List ℕ) (ps : List Prediction)
        → predict_loop n models om start ks ≡ some ps
        → Wanted om start ks ps
    unfolding predict_loop
    predict_loop-Wanted om start [] ps h =
        given (Wanted om start []) (predict_loop n models om start []) [] ps refl h (refl, tt)
    predict_loop-Wanted om start (k ∷ ks) ps h = elim (Bool-cases (ltb k start)) [
      | inl e ↦ rw e (predict_loop-Wanted om start ks ps (rw e at h))
      | inr e ↦ elim (Option-cases (get_hour om k)) [
        | inl none_at ↦ rw (e, none_at) (predict_loop-Wanted om start ks ps (rw (e, none_at) at h))
        | inr (entry, at) ↦
            rw (e, at)
              (appended om start k ks (features n entry k om) ps
                (λ qs. predict_loop-Wanted om start ks qs) (rw (e, at) at h))
      ]
    ]

  pub wanted-hours :
      (points : List Point) (start h : ℕ)
      → is_one_of h
          (wanted (om_by_hour n [] points) start (sorted (hours (om_by_hour n [] points))))
        ≡ (leb start h && has_weather n h points)
  unfolding get_hour
  wanted-hours points start h =
      let om = om_by_hour n [] points in
      ground (
        arith,
        is_one_of-wanted om start h (sorted (hours om)),
        is_one_of-sorted h (hours om),
        is_one_of-hours h om,
        get_hour-om_by_hour n h [] points,
      )
