-- ===== src/Routes/Forecasts.antt =====
-- server/app/main.py, with server/app/openmeteo.py and server/app/predict.py: the two routes of these
-- routers behind the guard that `create_app` gives them.
use esp32_home_display.Prelude.{ℕ, Bool, Option, List}
use esp32_home_display.Text.{Str}
use esp32_home_display.Common.{Datetime}
use esp32_home_display.Database.{Session}
use esp32_home_display.RateLimit.{MapStore}
use esp32_home_display.Access.{
  AccessConfig, Request, Verdict, granted, rejected, limited, crashed, sensor_read_limit,
}
use esp32_home_display.Weather.{Hourly, MeteoRequest}
use esp32_home_display.Weather.Endpoint.{Cache, WeatherAnswer, refused, get_openmeteo_weather}
use esp32_home_display.Predict.{Numerics}
use esp32_home_display.Predict.Route.{PredictCache, SensorPredictions, get_temperature_predictions}
use esp32_home_display.Routes.{status_of}

pub data PredictAnswer : Type 0 where
  predictions : List SensorPredictions → PredictAnswer
  failed_with : ℕ → PredictAnswer

-- What a request that does not pass its guard is answered by.
unfoldable pub refusal_status : Verdict → ℕ
unfolding status_of
refusal_status granted = 200
refusal_status (rejected e) = status_of e
refusal_status (limited secs) = 429
refusal_status crashed = 500

module _ {S : Type 0} (m : MapStore S) (hz : ℕ) (access : AccessConfig)
    (get : MeteoRequest → Option Hourly) (date_text : ℕ → Str) (lat lon : Str) where
  unfoldable pub weather_after :
      Verdict → ℕ → ℕ → Option Datetime → Option Datetime → Cache → WeatherAnswer × Cache
  unfolding get_openmeteo_weather
  weather_after granted today monotonic start_ts end_ts cache =
      get_openmeteo_weather get date_text lat lon today monotonic start_ts end_ts cache
  weather_after verdict today monotonic start_ts end_ts cache =
      (refused (refusal_status verdict), cache)

  -- `GET /openmeteo/weather`, on the limits and the weather's cache.
  unfoldable pub serve_weather :
      Request → ℕ → ℕ → Option Datetime → Option Datetime → S → Cache → WeatherAnswer × (S × Cache)
  unfolding sensor_read_limit weather_after
  serve_weather request today monotonic start_ts end_ts s cache =
      let (s', verdict) = sensor_read_limit m hz access request s in
      let (answer, cache') = weather_after verdict today monotonic start_ts end_ts cache in
      (answer, (s', cache'))

  unfoldable pub predictions_after :
      {D : Type 0}
      → Session D
      → Numerics
      → (Str → Str → Bool)
      → Verdict
      → ℕ
      → ℕ
      → D
      → Cache × PredictCache
      → PredictAnswer × (Cache × PredictCache)
  unfolding get_temperature_predictions
  predictions_after db n name_leb granted now monotonic d (weather_cache, cache) =
      let (result, caches) =
        get_temperature_predictions db n get date_text name_leb lat lon now monotonic d
          weather_cache cache in
      (predictions result, caches)
  predictions_after db n name_leb verdict now monotonic d caches =
      (failed_with (refusal_status verdict), caches)

  -- `GET /predict/temperature`, on the limits and both caches.
  unfoldable pub serve_predictions :
      {D : Type 0}
      → Session D
      → Numerics
      → (Str → Str → Bool)
      → Request
      → ℕ
      → ℕ
      → D
      → S
      → Cache × PredictCache
      → PredictAnswer × (S × (Cache × PredictCache))
  unfolding sensor_read_limit predictions_after
  serve_predictions db n name_leb request now monotonic d s caches =
      let (s', verdict) = sensor_read_limit m hz access request s in
      let (answer, caches') = predictions_after db n name_leb verdict now monotonic d caches in
      (answer, (s', caches'))
