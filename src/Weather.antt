-- ===== src/Weather.antt =====
-- server/app/openmeteo.py: the hourly weather of a range of days, put together from an archive and a
-- forecast, with a cache. What Open-Meteo answers is a parameter, none if the request fails; dates are
-- days, and `date_text` is how Python prints one.
pub mod Merge
pub mod Sorted
pub mod Endpoint
mod Tests
use Prim.Native.Nat.{min, max}
use esp32_home_display.Prelude.{
  ℕ, suc, ◌-◌, ◌*◌, ◌/◌, ◌==◌, Bool, true, false, not, ◌&&◌, ◌||◌, Option, none, some, List, [],
  ◌∷◌, ◌++◌, get_elem?, leb, ltb, if◌then◌else◌,
}
use esp32_home_display.Text.{Str, codes, str_eq, str_member}
use esp32_home_display.Float.{Float}
use esp32_home_display.Dict.{Dict, lookup, insert}
use esp32_home_display.Common.{Datetime, microseconds_per_day}

pub data Source : Type 0 where
  archive forecast : Source

-- A point of an hour: the values are those of `_HOURLY_VARS`, in their order.
pub record Point : Type 0 where
  pub timestamp : Str
  pub source : Source
  pub values : List (Option Float)

-- The "hourly" object of an answer; a column that is missing or null is absent.
pub record Hourly : Type 0 where
  pub time : List Str
  pub column : Str → Option (List (Option Float))

-- The parameters that differ between the requests.
pub data Period : Type 0 where
  dates : ℕ → ℕ → Period
  past_days : ℕ → Period

pub record MeteoRequest : Type 0 where
  pub url : Source
  pub latitude : Str
  pub longitude : Str
  pub period : Period

abbrev pub hourly_vars : List Str
hourly_vars =
    codes "temperature_2m"
    ∷ codes "relative_humidity_2m"
    ∷ codes "dew_point_2m"
    ∷ codes "rain"
    ∷ codes "showers"
    ∷ codes "snowfall"
    ∷ codes "wind_speed_10m"
    ∷ codes "wind_gusts_10m"
    ∷ codes "shortwave_radiation"
    ∷ codes "cloud_cover"
    ∷ []

-- `vals[i] if vals and i < len(vals) else None`
unfoldable pub value_at : Option (List (Option Float)) → ℕ → Option Float
value_at none i = none
value_at (some vals) i = elim (get_elem? vals i) [ none ↦ none | some v ↦ v ]

unfoldable pub values_at : (Str → Option (List (Option Float))) → ℕ → List Str → List (Option Float)
unfolding value_at
values_at column i [] = []
values_at column i (var ∷ vars) = value_at (column var) i ∷ values_at column i vars

-- The loop of `_fetch_meteo`
unfoldable pub points_of : Source → (Str → Option (List (Option Float))) → ℕ → List Str → List Point
unfolding values_at
points_of source column i [] = []
points_of source column i (t ∷ ts) =
    record {
      timestamp = t ++ codes ":00Z";
      source = source;
      values = values_at column i hourly_vars;
    }
    ∷ points_of source column (suc i) ts

unfoldable pub fetch_meteo :
    (MeteoRequest → Option Hourly) → MeteoRequest → Source → Option (List Point)
unfolding points_of
fetch_meteo get request source = elim (get request) [
  | none ↦ none
  | some hourly ↦ some (points_of source hourly.column 0 hourly.time)
]

unfoldable pub timestamps : List Point → List Str
timestamps [] = []
timestamps (p ∷ ps) = p.timestamp ∷ timestamps ps

-- The points whose timestamp is not yet there.
unfoldable pub not_covered : List Str → List Point → List Point
not_covered existing [] = []
not_covered existing (p ∷ ps) =
    let rest = not_covered existing ps in if str_member p.timestamp existing then rest else p ∷ rest

abbrev pub is_forecast : Source → Bool
is_forecast archive = false
is_forecast forecast = true

abbrev pub is_absent {ℓ} : {A : Type ℓ} → Option A → Bool
is_absent none = true
is_absent (some a) = false

-- The loop over the points.
unfoldable pub merge : Dict Point → List Point → Dict Point
merge seen [] = seen
merge seen (p ∷ ps) =
    merge
      (if is_absent (lookup seen p.timestamp) || is_forecast p.source
        then insert seen p.timestamp p
        else seen)
      ps

abbrev pub dict_values : Dict Point → List Point
dict_values [] = []
dict_values ((k, p) ∷ d) = p ∷ dict_values d

-- The order of Python's strings.
unfoldable pub str_leb : Str → Str → Bool
str_leb [] t = true
str_leb (c ∷ s) [] = false
str_leb (c ∷ s) (d ∷ t) = if c == d then str_leb s t else ltb c d

unfoldable pub insert_by_time : Point → List Point → List Point
unfolding str_leb
insert_by_time p [] = p ∷ []
insert_by_time p (q ∷ qs) =
    if str_leb p.timestamp q.timestamp then p ∷ q ∷ qs else q ∷ insert_by_time p qs

unfoldable pub by_time : List Point → List Point
unfolding insert_by_time
by_time [] = []
by_time (p ∷ ps) = insert_by_time p (by_time ps)

-- What the call keeps of an answer that was fetched if it was asked for.
abbrev pub fetched : Option (List Point) → List Point
fetched none = []
fetched (some ps) = ps

module _ (get : MeteoRequest → Option Hourly) (lat lon : Str) where
  abbrev pub asked : Bool → Source → Period → Source → Option (List Point)
  asked wanted url period source =
      if wanted
      then fetch_meteo get (record { url = url; latitude = lat; longitude = lon; period = period })
          source
      else none

  -- The three requests, in order, up to the merge.
  unfoldable pub gather : ℕ → ℕ → ℕ → List Point
  unfolding fetch_meteo not_covered timestamps
  gather today start_date end_date =
      let archived =
        asked (leb start_date (min end_date today)) archive (dates start_date (min end_date today))
          archive in
      let predicted =
        asked (leb (max start_date today) end_date) forecast (dates (max start_date today) end_date)
          forecast in
      let fallback =
        asked (is_absent archived && ltb start_date today) forecast (past_days (today - start_date))
          archive in
      let points = fetched archived ++ fetched predicted in
      points ++ not_covered (timestamps points) (fetched fallback)

  unfoldable pub merged : ℕ → ℕ → ℕ → List Point
  unfolding gather merge by_time
  merged today start_date end_date =
      by_time (dict_values (merge [] (gather today start_date end_date)))
