-- ===== src/Predict/Answer.antt =====
-- What `_fit_models` answers: when it predicts, and what its predictions are like.
use esp32_home_display.Prelude.{
  ℕ, ◌-◌, ◌*◌, ◌≡◌, Bool, ◌&&◌, Option, none, some, List, [], leb, is_one_of, All,
}
use esp32_home_display.Text.{Str, codes}
use esp32_home_display.Float.{Float}
use esp32_home_display.Common.{microseconds_per_day}
use esp32_home_display.Database.{Row}
use esp32_home_display.Query.{select, in_window, latest_first}
use esp32_home_display.Weather.{Point}
use esp32_home_display.Predict.{Numerics, TrainingRow, hourly_avgs, build_xy}
use esp32_home_display.Predict.Fit.{Prediction, train_days}
use esp32_home_display.Predict.Route.{om_by_hour}
use esp32_home_display.Predict.Hours.{predicted, has_weather, Increasing}
use esp32_home_display.Predict.Training.{has_value}
use esp32_home_display.Predict.Range.{IsPercent}

-- The rows of the last two weeks.
abbrev pub recent_rows : Str → ℕ → List Row → List Row
recent_rows mac now readings =
    select (in_window mac (now - train_days * microseconds_per_day) now) readings

-- An hour with weather for which the rows have a temperature and a humidity.
abbrev pub is_learnt : Numerics → List Point → List Row → ℕ → Bool
is_learnt n points rows h =
    has_weather n h points
    && (has_value (codes "temperature_c") h rows && has_value (codes "humidity_pct") h rows)

-- What the predictions, where there are any, are like.
abbrev pub Predicts : Numerics → ℕ → List Point → Option (List Prediction) → Type 0
Predicts n start points none = Unit {0}
Predicts n start points (some ps) =
    Increasing (predicted ps)
    × ((h : ℕ) → is_one_of h (predicted ps) ≡ (leb start h && has_weather n h points))
    × All (λ p. IsPercent p.humidity_pct) ps

module _ (n : Numerics) where
  -- The rows that the models of a meter are fitted to.
  abbrev pub training_rows : Str → ℕ → List Point → List Row → List TrainingRow
  training_rows mac now points readings =
      let rows = latest_first (recent_rows mac now readings) in
      build_xy n (hourly_avgs n rows).0 (hourly_avgs n rows).1 (om_by_hour n [] points)
