-- ===== src/Predict/Route.antt =====
-- server/app/predict.py: the route, with its cache.
use esp32_home_display.Prelude.{
  ℕ, ◌+◌, ◌-◌, ◌*◌, ◌/◌, ◌==◌, Bool, Option, none, some, List, [], ◌∷◌, ◌++◌, ltb, if◌then◌else◌,
}
use esp32_home_display.Text.{Str, codes, str_eq}
use esp32_home_display.Float.{Float, whole}
use esp32_home_display.Dict.{Dict, lookup, insert}
use esp32_home_display.Common.{microseconds_per_day}
use esp32_home_display.Database.{Sensor, Row, Session, switchbot_type}
use esp32_home_display.Routes.{list_sensors}
use esp32_home_display.Weather.{Hourly, MeteoRequest, Point, hourly_vars}
use esp32_home_display.Weather.Endpoint.{Cache, get_weather}
use esp32_home_display.Predict.{Numerics, ByHour, put_hour, OmEntry}
use esp32_home_display.Predict.Fit.{Prediction, train_days, fit_models}

unfoldable pub named_value : Str → List Str → List (Option Float) → Option Float
named_value name [] values = none
named_value name (var ∷ vars) [] = none
named_value name (var ∷ vars) (v ∷ values) =
    if str_eq var name then v else named_value name vars values

-- `pt.get(name)`
unfoldable pub point_value : Str → Point → Option Float
unfolding named_value
point_value name p = named_value name hourly_vars p.values

unfoldable pub or_zero : Option Float → Float
or_zero none = whole 0
or_zero (some v) = v

unfoldable pub entry_of : Float → Point → OmEntry
unfolding or_zero point_value
entry_of outdoor p = record {
  outdoor = outdoor;
  radiation = or_zero (point_value (codes "shortwave_radiation") p);
  cloud = or_zero (point_value (codes "cloud_cover") p);
  humidity = or_zero (point_value (codes "relative_humidity_2m") p);
}

unfoldable pub add_point : Numerics → Option Float → Point → ByHour OmEntry → ByHour OmEntry
unfolding put_hour entry_of
add_point n none p om = om
add_point n (some outdoor) p om = put_hour om (n.hour_of_text p.timestamp) (entry_of outdoor p)

-- A point with no temperature is passed over, and a later one of an hour takes its place.
unfoldable pub om_by_hour : Numerics → ByHour OmEntry → List Point → ByHour OmEntry
unfolding add_point point_value
om_by_hour n om [] = om
om_by_hour n om (p ∷ ps) =
    om_by_hour n (add_point n (point_value (codes "temperature_2m") p) p om) ps

pub record SensorPredictions : Type 0 where
  pub sensor_id : ℕ
  pub sensor_name : Str
  pub predictions : List Prediction

-- `if fit:`, which neither none nor an empty list passes
unfoldable pub add_fit :
    Sensor → Option (List Prediction) → List SensorPredictions → List SensorPredictions
add_fit sensor none rest = rest
add_fit sensor (some []) rest = rest
add_fit sensor (some (p ∷ ps)) rest =
    record { sensor_id = sensor.id; sensor_name = sensor.name; predictions = p ∷ ps } ∷ rest

-- The loop over the sensors; `_EXCLUDE_NAMES` is empty.
unfoldable pub predict_sensors :
    Numerics → ℕ → ByHour OmEntry → List Row → List Sensor → List SensorPredictions
unfolding add_fit fit_models
predict_sensors n now om readings [] = []
predict_sensors n now om readings (sensor ∷ sensors) =
    let rest = predict_sensors n now om readings sensors in
    if sensor.type == switchbot_type
    then add_fit sensor (fit_models n sensor.mac now om readings) rest
    else rest

abbrev pub PredictCache : Type 0
PredictCache = Dict (ℕ × List SensorPredictions)

abbrev pub forecast_days : ℕ
forecast_days = 7

abbrev pub predict_ttl : ℕ
predict_ttl = 30 * 60

unfoldable pub cached_result : PredictCache → Str → ℕ → Option (List SensorPredictions)
unfolding lookup
cached_result cache key monotonic = elim (lookup cache key) [
  | none ↦ none
  | some (stored_at, result) ↦ if ltb (monotonic - stored_at) predict_ttl then some result else none
]

unfoldable pub store_result : PredictCache → Str → ℕ → List SensorPredictions → PredictCache
unfolding insert
store_result cache key monotonic [] = cache
store_result cache key monotonic (r ∷ rs) = insert cache key (monotonic, r ∷ rs)

module _ {D : Type 0} (db : Session D) (n : Numerics) (get : MeteoRequest → Option Hourly)
    (date_text : ℕ → Str) (name_leb : Str → Str → Bool) where
  open db use {sensors, readings}

  -- The answer, and the two caches after it.
  unfoldable pub get_temperature_predictions :
      Str → Str → ℕ → ℕ → D → Cache → PredictCache → List SensorPredictions × (Cache × PredictCache)
  unfolding cached_result store_result get_weather om_by_hour predict_sensors list_sensors
  get_temperature_predictions lat lon now monotonic d weather_cache cache =
      let key = lat ++ codes "_" ++ lon in
      elim (cached_result cache key monotonic) [
        | some result ↦ (result, (weather_cache, cache))
        | none ↦
            let (om_data, weather_cache') =
              get_weather get date_text lat lon (now / microseconds_per_day) monotonic
                ((now - train_days * microseconds_per_day) / microseconds_per_day)
                ((now + forecast_days * microseconds_per_day) / microseconds_per_day)
                weather_cache in
            let result =
              predict_sensors n now (om_by_hour n [] om_data) (readings d)
                (list_sensors name_leb (sensors d)) in
            (result, (weather_cache', store_result cache key monotonic result))
      ]
