-- ===== src/Weather/Endpoint.antt =====
-- server/app/openmeteo.py: the cache, and the route with the checks of its query. A query value that is
-- no ISO time is absent; times of the cache are in seconds of a clock that does not go back.
use esp32_home_display.Prelude.{
  ℕ, ◌-◌, ◌*◌, ◌/◌, Bool, true, false, Option, none, some, List, [], ◌∷◌, ◌++◌, ltb, if◌then◌else◌,
}
use esp32_home_display.Text.{Str, codes}
use esp32_home_display.Dict.{Dict, lookup, insert}
use esp32_home_display.Common.{Datetime, microseconds_per_day}
use esp32_home_display.Weather.{Hourly, MeteoRequest, Point, merged}

abbrev pub Cache : Type 0
Cache = Dict (ℕ × List Point)

abbrev pub cache_ttl : ℕ
cache_ttl = 30 * 60

abbrev pub is_full : List Point → Bool
is_full [] = false
is_full (p ∷ ps) = true

unfoldable pub cache_key : (ℕ → Str) → ℕ → ℕ → Str → Str → Str
cache_key date_text start_date end_date lat lon =
    date_text start_date
    ++ (codes "_" ++ (date_text end_date ++ (codes "_" ++ (lat ++ (codes "_" ++ lon)))))

-- The cached answer, if it is young enough.
unfoldable pub cached_answer : Cache → Str → ℕ → Option (List Point)
unfolding lookup
cached_answer cache key monotonic = elim (lookup cache key) [
  | none ↦ none
  | some (stored_at, points) ↦ if ltb (monotonic - stored_at) cache_ttl then some points else none
]

unfoldable pub store_answer : Cache → Str → ℕ → List Point → Cache
unfolding insert
store_answer cache key monotonic result =
    if is_full result then insert cache key (monotonic, result) else cache

-- `_get_openmeteo_weather`
unfoldable pub get_weather :
    (MeteoRequest → Option Hourly)
    → (ℕ → Str)
    → Str
    → Str
    → ℕ
    → ℕ
    → ℕ
    → ℕ
    → Cache
    → List Point × Cache
unfolding cache_key cached_answer store_answer
get_weather get date_text lat lon today monotonic start_date end_date cache =
    let key = cache_key date_text start_date end_date lat lon in
    elim (cached_answer cache key monotonic) [
      | some points ↦ (points, cache)
      | none ↦
          let result = merged get lat lon today start_date end_date in
          (result, store_answer cache key monotonic result)
    ]

-- An answer of the route: the points, or the status of a refusal.
pub data WeatherAnswer : Type 0 where
  weather : List Point → WeatherAnswer
  refused : ℕ → WeatherAnswer

abbrev pub max_query_window : ℕ
max_query_window = 370 * microseconds_per_day

-- `_parse_query_datetime`: the instant, for a value that is an ISO time with a timezone.
unfoldable pub parse_query_datetime : Option Datetime → Option ℕ
parse_query_datetime none = none
parse_query_datetime (some t) = elim t.tzinfo [ none ↦ none | some offset ↦ some t.instant ]

-- Both times and their order are checked first; the dates are those of UTC.
unfoldable pub get_openmeteo_weather :
    (MeteoRequest → Option Hourly)
    → (ℕ → Str)
    → Str
    → Str
    → ℕ
    → ℕ
    → Option Datetime
    → Option Datetime
    → Cache
    → WeatherAnswer × Cache
unfolding parse_query_datetime get_weather
get_openmeteo_weather get date_text lat lon today monotonic start_ts end_ts cache =
    elim (parse_query_datetime start_ts) [
      | none ↦ (refused 400, cache)
      | some start_dt ↦ elim (parse_query_datetime end_ts) [
        | none ↦ (refused 400, cache)
        | some end_dt ↦
            if ltb end_dt start_dt
            then (refused 400, cache)
            else if ltb max_query_window (end_dt - start_dt)
            then (refused 400, cache)
            else (let (points, cache') =
                  get_weather get date_text lat lon today monotonic
                    (start_dt / microseconds_per_day) (end_dt / microseconds_per_day) cache in
                (weather points, cache'))
      ]
    ]
