-- ===== src/Predict/Fit.antt =====
-- server/app/predict.py: the models of one meter, and what they predict.
use esp32_home_display.Prelude.{
  ℕ, ◌-◌, ◌*◌, Option, none, some, List, [], ◌∷◌, length, ltb, if◌then◌else◌,
}
use esp32_home_display.Text.{Str}
use esp32_home_display.Float.{Float, whole, min_float, max_float}
use esp32_home_display.Arithmetic.{Arithmetic, ◌>>=◌}
use esp32_home_display.Common.{microseconds_per_day}
use esp32_home_display.Database.{Row}
use esp32_home_display.Sync.{sorted}
use esp32_home_display.Query.{fetch_window_readings}
use esp32_home_display.Predict.{
  Numerics, ByHour, get_hour, hours, round_hour, hourly_avgs, OmEntry, features, TrainingRow,
  build_xy, feats, targets,
}

-- `max(0.0, min(100.0, x))`
unfoldable pub clamp_percent : Float → Float
unfolding min_float max_float
clamp_percent x = max_float (whole 0) (min_float (whole 100) x)

module _ (a : Arithmetic) where
  open a use {decimal, add, sub, mul, div, exp}

  -- None is an exception here and below.
  unfoldable pub calc_abs_humidity : Float → Float → Option Float
  calc_abs_humidity temp_c rh_pct = do
    power ← div (mul (decimal 1767 2) temp_c) (add temp_c (decimal 2435 1))
    e ← exp power
    share ← div rh_pct (decimal 100 0)
    density ←
        div (mul (decimal 21674 4) (mul (mul (decimal 6112 3) e) share))
          (add (decimal 27315 2) temp_c)
    some (mul density (decimal 100 0))

  unfoldable pub calc_vpd : Float → Float → Option Float
  calc_vpd temp_c rh_pct = do
    power ← div (mul (decimal 1727 2) temp_c) (add temp_c (decimal 2373 1))
    e ← exp power
    share ← div rh_pct (decimal 100 0)
    some (mul (mul (decimal 6108 4) e) (sub (decimal 1 0) share))

-- The hour stands for its text.
pub record Prediction : Type 0 where
  pub hour : ℕ
  pub temperature_c : Float
  pub humidity_pct : Float
  pub abs_humidity : Float
  pub vpd : Float

-- `_fit_rf`: the two fitted models.
pub record Models : Type 0 where
  pub model_t : List Float → Option Float
  pub model_h : List Float → Option Float

unfoldable pub fit_rf : Numerics → List TrainingRow → Option Models
unfolding feats targets
fit_rf n rows = elim (n.ridge (feats rows) (targets (λ r. r.temperature) rows)) [
  | none ↦ none
  | some model_t ↦ elim (n.ridge (feats rows) (targets (λ r. r.humidity) rows)) [
    | none ↦ none
    | some model_h ↦ some (record { model_t = model_t; model_h = model_h })
  ]
]

unfoldable pub predict_hour : Numerics → Models → List Float → ℕ → Option Prediction
unfolding clamp_percent calc_abs_humidity calc_vpd
predict_hour n models feat hour = do
  pred_temp ← models.model_t feat
  raw_hum ← models.model_h feat
  abs_humidity ← calc_abs_humidity n.ops pred_temp (clamp_percent raw_hum)
  vpd ← calc_vpd n.ops pred_temp (clamp_percent raw_hum)
  some (record {
    hour = hour;
    temperature_c = n.round pred_temp 1;
    humidity_pct = n.round (clamp_percent raw_hum) 1;
    abs_humidity = n.round abs_humidity 2;
    vpd = n.round vpd 3;
  })

-- An hour that raises ends the loop with its exception.
unfoldable pub append_prediction :
    Option Prediction → Option (List Prediction) → Option (List Prediction)
append_prediction none others = none
append_prediction (some p) none = none
append_prediction (some p) (some ps) = some (p ∷ ps)

-- The loop over the hours with weather; hours before the current one are passed over.
unfoldable pub predict_loop :
    Numerics → Models → ByHour OmEntry → ℕ → List ℕ → Option (List Prediction)
unfolding get_hour predict_hour append_prediction
predict_loop n models om forecast_start [] = some []
predict_loop n models om forecast_start (hour ∷ rest) =
    let others = predict_loop n models om forecast_start rest in
    if ltb hour forecast_start then others else elim (get_hour om hour) [
      | none ↦ others
      | some entry ↦
          append_prediction (predict_hour n models (features n entry hour om) hour) others
    ]

abbrev pub train_days : ℕ
train_days = 14

unfoldable pub predict_all :
    Numerics → ByHour OmEntry → ℕ → Option Models → Option (List Prediction)
unfolding predict_loop sorted hours round_hour
predict_all n om now none = none
predict_all n om now (some models) = predict_loop n models om (round_hour now) (sorted (hours om))

-- `_fit_models`: none where it returns none, and where the regression or a formula raises, which its
-- caller treats alike.
unfoldable pub fit_models :
    Numerics → Str → ℕ → ByHour OmEntry → List Row → Option (List Prediction)
unfolding fetch_window_readings hourly_avgs build_xy fit_rf predict_all
fit_models n mac now om readings =
    let rows =
      fetch_window_readings mac (now - train_days * microseconds_per_day) now none readings in
    let (avg_temp, avg_hum) = hourly_avgs n rows in
    let training = build_xy n avg_temp avg_hum om in
    if ltb (length training) 24 then none else predict_all n om now (fit_rf n training)
