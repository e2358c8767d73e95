-- ===== src/Plants/Readings.antt =====
-- server/app/plant_proxy.py: the readings of one sensor, fetched from the plant monitor and put newest
-- first. What the request comes back with is a parameter: none if it fails or is no success, else the
-- rows of the body.
pub mod Sorted
pub mod Rows
pub mod Served
use esp32_home_display.Prelude.{
  ℕ, ◌==◌, Bool, true, false, not, ◌&&◌, ◌||◌, ℤ, Option, none, some, List, [], ◌∷◌, ◌++◌, leb,
  if◌then◌else◌,
}
use esp32_home_display.Text.{Str, codes}
use esp32_home_display.Float.{Float}
use esp32_home_display.Arithmetic.{◌>>=◌}
use esp32_home_display.Common.{Datetime}
use esp32_home_display.Plants.{PlantSensorConfig, slug_for_mac}

-- The parts of the configuration that the calls read.
pub record ProxyConfig : Type 0 where
  pub plant_monitor_url : Str
  pub plant_monitor_api_token : Str
  pub plant_monitor_sensors : List PlantSensorConfig

-- The parameters of the request; the times are written in ISO format.
pub record Params : Type 0 where
  pub start_ts : Datetime
  pub end_ts : Datetime
  pub max_points : Option ℕ

pub record ProxyRequest : Type 0 where
  pub url : Str
  pub authorization : Str
  pub params : Params

-- What pydantic makes of the value under a key: a missing key or a null, a value of the field's type,
-- or a value that it refuses, as 41.5 for an integer.
pub data Checked (A : Type 0) : Type 0 where
  absent refused : Checked A
  valid : A → Checked A

-- A row of the monitor.
pub record MonitorRow : Type 0 where
  pub recorded_at : Checked Datetime
  pub temperature_c : Checked Float
  pub humidity_pct : Checked Float
  pub moisture_pct : Checked ℤ
  pub lux : Checked ℤ
  pub conductivity_us_cm : Checked ℤ

pub record PlantReadingOut : Type 0 where
  pub timestamp : Datetime
  pub temperature_c : Option Float
  pub moisture_pct : Option ℤ
  pub light_lux : Option ℤ
  pub conductivity_us_cm : Option ℤ

pub record MeterReadingOut : Type 0 where
  pub timestamp : Datetime
  pub temperature_c : Float
  pub humidity_pct : Float

-- `rstrip("/")`
unfoldable pub keep_slash : ℕ → Str → Str
keep_slash c [] = if c == b'/' then [] else c ∷ []
keep_slash c (d ∷ s) = c ∷ d ∷ s

unfoldable pub rstrip_slash : Str → Str
unfolding keep_slash
rstrip_slash [] = []
rstrip_slash (c ∷ s) = keep_slash c (rstrip_slash s)

-- What `_get` sends.
unfoldable pub get_request : ProxyConfig → Str → Params → ProxyRequest
unfolding rstrip_slash
get_request config path params = record {
  url = rstrip_slash config.plant_monitor_url ++ path;
  authorization = codes "Bearer " ++ config.plant_monitor_api_token;
  params = params;
}

-- A field of a type, and one that may be `None`; none is a KeyError or a failed validation.
unfoldable pub required : {A : Type 0} → Checked A → Option A
required absent = none
required refused = none
required (valid a) = some a

unfoldable pub nullable : {A : Type 0} → Checked A → Option (Option A)
nullable absent = some none
nullable refused = none
nullable (valid a) = some (some a)

unfoldable pub map_reading : MonitorRow → Option PlantReadingOut
unfolding required nullable
map_reading row = do
  timestamp ← required row.recorded_at
  temperature_c ← nullable row.temperature_c
  moisture_pct ← nullable row.moisture_pct
  light_lux ← nullable row.lux
  conductivity_us_cm ← nullable row.conductivity_us_cm
  some (record {
    timestamp = timestamp;
    temperature_c = temperature_c;
    moisture_pct = moisture_pct;
    light_lux = light_lux;
    conductivity_us_cm = conductivity_us_cm;
  })

-- `sb.ReadingOut` wants a temperature and a humidity.
unfoldable pub meter_reading : MonitorRow → Option MeterReadingOut
unfolding required
meter_reading row = do
  timestamp ← required row.recorded_at
  temperature_c ← required row.temperature_c
  humidity_pct ← required row.humidity_pct
  some
      (record { timestamp = timestamp; temperature_c = temperature_c; humidity_pct = humidity_pct })

abbrev pub is_aware : Datetime → Bool
is_aware t = elim t.tzinfo [ none ↦ false | some offset ↦ true ]

abbrev pub is_naive : Datetime → Bool
is_naive t = not (is_aware t)

abbrev pub any_of {ℓ} : {A : Type ℓ} → (A → Bool) → List A → Bool
any_of test [] = false
any_of test (x ∷ xs) = test x || any_of test xs

module _ {A : Type 0} where
  -- A comprehension over the rows: the first row that fails ends it.
  unfoldable pub collect_one : Option A → Option (List A) → Option (List A)
  collect_one none rest = none
  collect_one (some a) none = none
  collect_one (some a) (some xs) = some (a ∷ xs)

  unfoldable pub collect : (MonitorRow → Option A) → List MonitorRow → Option (List A)
  unfolding collect_one
  collect f [] = some []
  collect f (row ∷ rows) = collect_one (f row) (collect f rows)

  -- `sort(key=…, reverse=True)`, which is stable
  unfoldable pub insert_desc : (A → ℕ) → A → List A → List A
  insert_desc key a [] = a ∷ []
  insert_desc key a (b ∷ ys) = if leb (key b) (key a) then a ∷ b ∷ ys else b ∷ insert_desc key a ys

  unfoldable pub sort_desc : (A → ℕ) → List A → List A
  unfolding insert_desc
  sort_desc key [] = []
  sort_desc key (a ∷ xs) = insert_desc key a (sort_desc key xs)

  -- Naive and aware times cannot be compared: a sort of both raises, whatever their order.
  unfoldable pub sorted_if_all : (A → Datetime) → Option (List A) → Option (List A)
  unfolding sort_desc
  sorted_if_all stamp none = none
  sorted_if_all stamp (some xs) =
      if any_of (λ a. is_aware (stamp a)) xs && any_of (λ a. is_naive (stamp a)) xs
      then none
      else some (sort_desc (λ a. (stamp a).instant) xs)

  -- What the two functions share: none is an exception. A window that is not given, or a sensor with
  -- no slug, has no readings.
  unfoldable pub fetch_with :
      (MonitorRow → Option A)
      → (A → Datetime)
      → (ProxyRequest → Option (List MonitorRow))
      → ProxyConfig
      → Str
      → Option Datetime
      → Option Datetime
      → Option ℕ
      → Option (List A)
  unfolding get_request collect sorted_if_all slug_for_mac
  fetch_with f stamp get config mac none end_ts max_points = some []
  fetch_with f stamp get config mac (some start_ts) none max_points = some []
  fetch_with f stamp get config mac (some start_ts) (some end_ts) max_points =
      elim (slug_for_mac config.plant_monitor_sensors mac) [
        | none ↦ some []
        | some slug ↦
            elim (get (
              get_request config (codes "/sensors/" ++ (slug ++ codes "/readings"))
                (record { start_ts = start_ts; end_ts = end_ts; max_points = max_points }))) [
                  | none ↦ none
                  | some rows ↦ sorted_if_all stamp (collect f rows)
                ]
      ]

unfoldable pub fetch_plant_readings :
    (ProxyRequest → Option (List MonitorRow))
    → ProxyConfig
    → Str
    → Option Datetime
    → Option Datetime
    → Option ℕ
    → Option (List PlantReadingOut)
unfolding fetch_with map_reading
fetch_plant_readings = fetch_with map_reading (λ r. r.timestamp)

unfoldable pub fetch_meter_readings :
    (ProxyRequest → Option (List MonitorRow))
    → ProxyConfig
    → Str
    → Option Datetime
    → Option Datetime
    → Option ℕ
    → Option (List MeterReadingOut)
unfolding fetch_with meter_reading
fetch_meter_readings = fetch_with meter_reading (λ r. r.timestamp)
