-- ===== src/Routes.antt =====
-- server/app/main.py: the routes that `create_app` declares, each with its guard, the validation of
-- its payload and its handler. A handler that raises is answered by a status code, and its session is
-- closed, which drops what is not committed; a commit of what the database has taken does not fail.
-- A body that is no JSON is refused before all of this. What the application takes from outside is a
-- record.
pub mod Transaction
pub mod Handlers
pub mod Untouched
pub mod Keyless
pub mod Forecasts
mod Tests
use esp32_home_display.Prelude.{
  ℕ, ◌==◌, Bool, true, false, not, ◌||◌, Option, none, some, List, [], ◌∷◌, leb, ltb, if◌then◌else◌,
}
use esp32_home_display.Text.{Str, codes}
use esp32_home_display.Float.{Float}
use esp32_home_display.Result.{
  Error, Result, ok, err, Exec, bad_request, unauthorized, misconfigured, out_of_range, empty_name,
  malformed, integrity_error,
}
use esp32_home_display.Common.{Datetime}
use esp32_home_display.Database.{Sensor, Row, switchbot_type, xiaomi_type}
use esp32_home_display.Ingest.{Classified}
use esp32_home_display.Bulk.{BulkOut}
use esp32_home_display.Sync.{SensorIn, SensorsOut}
use esp32_home_display.Switchbot.{names_nothing}
use esp32_home_display.Plants.{LatestBody, LatestOut}
use esp32_home_display.Plants.Readings.{
  ProxyConfig, ProxyRequest, MonitorRow, PlantReadingOut, MeterReadingOut,
}
use esp32_home_display.Plants.Meters.{MeterBody, MeterLatest}
use esp32_home_display.Query.{Params}
use esp32_home_display.Access.{AccessConfig}

-- The parts of the configuration that the routes read.
pub record AppConfig : Type 0 where
  pub access : AccessConfig
  pub proxy : ProxyConfig
  pub bulk_max_readings : ℕ
  pub sync_gap_threshold_minutes : ℕ
  pub sync_max_intervals_per_sensor : ℕ
  pub sync_max_intervals_total : ℕ

-- What pydantic makes of a raw item, what the plant monitor answers, whether the response models can
-- read the times of its entries, the time, and the order of names in the database.
pub record Outside (Raw : Type 0) : Type 0 where
  pub is_object : Raw → Bool
  pub parse : Raw → Option (Datetime × Float × Float)
  pub monitor : ProxyRequest → Option (List MonitorRow)
  pub meter_latest : Option MeterBody
  pub meter_entries : Option LatestBody
  pub flower_care_entries : Option LatestBody
  pub accepts_meters : MeterLatest → Bool
  pub accepts_latest : LatestOut → Bool
  pub name_leb : Str → Str → Bool
  pub now : ℕ

-- `SensorOut` of main.py
pub record SensorOut : Type 0 where
  pub id : ℕ
  pub mac : Str
  pub name : Str
  pub type : Str

pub data ReadingsOut : Type 0 where
  no_readings : ReadingsOut
  plant_readings : List PlantReadingOut → ReadingsOut
  meter_readings : List MeterReadingOut → ReadingsOut
  stored_readings : List Row → ReadingsOut

-- The answer: a body, with status 200, or the status of a failure.
pub data Answer : Type 0 where
  sensors_answer : SensorsOut → Answer
  bulk_answer : BulkOut → Answer
  reading_answer : Classified → Answer
  list_answer : List SensorOut → Answer
  readings_answer : ReadingsOut → Answer
  latest_answer : LatestOut → Answer
  meter_answer : MeterLatest → Answer
  failed : ℕ → Answer

-- The exception handlers. A validator's ValueError is a failed validation, and what no handler
-- expects is an internal error.
unfoldable pub status_of : Error → ℕ
status_of (bad_request reason) = 400
status_of unauthorized = 401
status_of misconfigured = 500
status_of (out_of_range name) = 422
status_of empty_name = 422
status_of malformed = 422
status_of (integrity_error constraint) = 500

-- `SENSOR_TYPE_NAMES`; another key is a KeyError.
unfoldable pub sensor_type_name : ℕ → Option Str
sensor_type_name type =
    if type == switchbot_type
    then some (codes "switchbot")
    else if type == xiaomi_type
    then some (codes "xiaomi")
    else none

unfoldable pub sensor_out : Sensor → Option SensorOut
unfolding sensor_type_name
sensor_out s = elim (sensor_type_name s.type) [
  | none ↦ none
  | some type ↦ some (record { id = s.id; mac = s.mac; name = s.name; type = type })
]

unfoldable pub list_sensors_out : List Sensor → Option (List SensorOut)
unfolding sensor_out
list_sensors_out [] = some []
list_sensors_out (s ∷ ss) = elim (sensor_out s) [
  | none ↦ none
  | some out ↦ elim (list_sensors_out ss) [ none ↦ none | some rest ↦ some (out ∷ rest) ]
]

-- `order_by(Sensor.name)`, in the database's order of names
unfoldable pub insert_by_name : (Str → Str → Bool) → Sensor → List Sensor → List Sensor
insert_by_name leb s [] = s ∷ []
insert_by_name leb s (t ∷ ts) =
    let rest = insert_by_name leb s ts in if leb s.name t.name then s ∷ t ∷ ts else t ∷ rest

unfoldable pub list_sensors : (Str → Str → Bool) → List Sensor → List Sensor
unfolding insert_by_name
list_sensors leb [] = []
list_sensors leb (s ∷ ss) = insert_by_name leb s (list_sensors leb ss)

-- `SensorIn.validate_fields` and `SensorsIn.validate_fields`
unfoldable pub any_unnamed : List SensorIn → Bool
unfolding names_nothing
any_unnamed [] = false
any_unnamed (s ∷ ss) = names_nothing s.name || any_unnamed ss

abbrev pub is_nil {ℓ} : {A : Type ℓ} → List A → Bool
is_nil [] = true
is_nil (x ∷ xs) = false

unfoldable pub valid_sensors : List SensorIn → Bool
unfolding any_unnamed
valid_sensors requested = not (is_nil requested || any_unnamed requested)

-- `Query(gt=0, le=5000)`, where it is given
unfoldable pub valid_max_points : Option ℕ → Bool
valid_max_points none = true
valid_max_points (some n) = if ltb 0 n then leb n 5000 else false

abbrev pub readings_max_limit : ℕ
readings_max_limit = 100

unfoldable pub valid_query : Params → Bool
unfolding valid_max_points
valid_query p = if leb p.limit readings_max_limit then valid_max_points p.max_points else false
