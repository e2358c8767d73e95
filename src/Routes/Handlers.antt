-- ===== src/Routes/Handlers.antt =====
-- server/app/main.py: the handlers of the routes, and the guards in front of them.
use esp32_home_display.Prelude.{
  ℕ, Bool, ◌==◌, true, Option, none, some, List, [], length, ltb, if◌then◌else◌,
}
use esp32_home_display.Text.{is_empty}
use esp32_home_display.Result.{Result, ok, err}
use esp32_home_display.Common.{ReadingIn}
use esp32_home_display.Database.{Sensor, Session, find_sensor_id, switchbot_type, xiaomi_type}
use esp32_home_display.Ingest.{ingest_reading}
use esp32_home_display.Bulk.{bulk_result_counts}
use esp32_home_display.Sync.{SensorIn, get_or_create_sensors_with_sync_state}
use esp32_home_display.Switchbot.{sensor_spec, validate_fields}
use esp32_home_display.Plants.{latest_v2_entries, meter_retry_default}
use esp32_home_display.Plants.Readings.{fetch_plant_readings, fetch_meter_readings}
use esp32_home_display.Plants.Meters.{meter_latest_v2}
use esp32_home_display.Query.{Params, fetch_readings}
use esp32_home_display.RateLimit.{MapStore}
use esp32_home_display.Access.{
  Request, api_key_read, api_key_live_write, api_key_bulk_write, Verdict, granted, rejected,
  limited, crashed, device_guard, sensor_read_limit,
}
use esp32_home_display.Routes.Transaction.{begin, in_transaction}
use esp32_home_display.Routes.{
  AppConfig, Outside, no_readings, plant_readings, meter_readings, stored_readings, Answer,
  sensors_answer, bulk_answer, reading_answer, list_answer, readings_answer, latest_answer,
  meter_answer, failed, status_of, list_sensors_out, list_sensors, is_nil, valid_sensors,
  valid_query,
}

-- A call of the interface, with its payload.
pub data Route (Raw : Type 0) : Type 0 where
  post_switchbot_sensors : List SensorIn → Route Raw
  post_switchbot_bulk : ℕ → List Raw → Route Raw
  post_switchbot_reading : ReadingIn → Route Raw
  get_sensors : Route Raw
  get_meter_latest_v2 : Route Raw
  get_sensors_latest_v2 : Option (List ℕ) → Route Raw
  get_sensor_readings : ℕ → Params → Route Raw

-- The exception handlers answer for what a handler raises.
unfoldable pub answer_of : {D A : Type 0} → (A → Answer) → Result A × D → Answer × D
unfolding status_of
answer_of f (ok a, d) = (f a, d)
answer_of f (err e, d) = (failed (status_of e), d)

-- An answer that its response model refuses is an internal error.
unfoldable pub response : Bool → Answer → Answer
response accepted answer = if accepted then answer else failed 500

unfoldable pub answer_or_500 : {A : Type 0} → (A → Answer) → Option A → Answer
answer_or_500 f none = failed 500
answer_or_500 f (some a) = f a

unfoldable pub answer_result : {A : Type 0} → (A → Answer) → Result A → Answer
unfolding status_of
answer_result f (ok a) = f a
answer_result f (err e) = failed (status_of e)

module _ {D Raw : Type 0} (db : Session D) (cfg : AppConfig) (out : Outside Raw) where
  open db use {sensors}

  unfoldable pub create_switchbot_sensors : List SensorIn → D → Answer × D
  unfolding answer_of valid_sensors
  create_switchbot_sensors requested d =
      if valid_sensors requested
      then answer_of sensors_answer (
          get_or_create_sensors_with_sync_state db out.now requested sensor_spec
            cfg.sync_gap_threshold_minutes cfg.sync_max_intervals_per_sensor
            cfg.sync_max_intervals_total d)
      else (failed 422, d)

  -- The rows of a sensor that is known and is a meter.
  unfoldable pub bulk_for : Option Sensor → List Raw → D → Answer × D
  bulk_for none readings d = (failed 422, d)
  bulk_for (some sensor_row) readings d =
      if sensor_row.type == switchbot_type
      then (let (counts, d') =
            bulk_result_counts db out.is_object out.parse 20 sensor_row readings d in
          (bulk_answer counts, d'))
      else (failed 422, d)

  -- The validation refuses an empty list, the handler one that is too long.
  unfoldable pub create_switchbot_bulk : ℕ → List Raw → D → Answer × D
  unfolding bulk_for
  create_switchbot_bulk sensor_id readings d =
      if is_nil readings
      then (failed 422, d)
      else if ltb cfg.bulk_max_readings (length readings)
      then (failed 422, d)
      else bulk_for (find_sensor_id sensor_id (sensors d)) readings d

  unfoldable pub create_switchbot_reading : ReadingIn → D → Answer × D
  unfolding answer_of
  create_switchbot_reading raw d = elim (validate_fields raw) [
    | err e ↦ (failed 422, d)
    | ok reading ↦ answer_of reading_answer (ingest_reading db sensor_spec true reading d)
  ]

  unfoldable pub get_sensor_list : D → Answer
  unfolding answer_or_500
  get_sensor_list d =
      answer_or_500 list_answer (list_sensors_out (list_sensors out.name_leb (sensors d)))

  unfoldable pub get_meter_latest : Answer
  unfolding response
  get_meter_latest =
      if is_empty cfg.proxy.plant_monitor_url
      then meter_answer (record { sensors = []; retry_after_secs = meter_retry_default })
      else (let latest = meter_latest_v2 out.meter_latest in
          response (out.accepts_meters latest) (meter_answer latest))

  unfoldable pub get_latest : Option (List ℕ) → D → Answer × D
  unfolding response
  get_latest sensor_ids d =
      if is_empty cfg.proxy.plant_monitor_url
      then (
        latest_answer (record { meters = []; plants = []; retry_after_secs = meter_retry_default }),
        d,
      )
      else let (latest, d') =
          latest_v2_entries db sensor_ids out.meter_entries out.flower_care_entries d in
        (response (out.accepts_latest latest) (latest_answer latest), d')

  unfoldable pub readings_of : Sensor → Params → D → Answer
  unfolding answer_or_500 answer_result
  readings_of sensor_row p d =
      let unset = is_empty cfg.proxy.plant_monitor_url in
      if sensor_row.type == xiaomi_type
      then if unset
        then readings_answer no_readings
        else answer_or_500 (λ rs. readings_answer (plant_readings rs))
            (fetch_plant_readings out.monitor cfg.proxy sensor_row.mac p.start_ts p.end_ts
              p.max_points)
      else if sensor_row.type == switchbot_type
      then if unset
        then answer_result (λ rows. readings_answer (stored_readings rows))
            (fetch_readings db out.now sensor_row.mac p sensor_row.type d)
        else answer_or_500 (λ rs. readings_answer (meter_readings rs))
            (fetch_meter_readings out.monitor cfg.proxy sensor_row.mac p.start_ts p.end_ts
              p.max_points)
      else failed 500

  unfoldable pub get_readings : ℕ → Params → D → Answer
  unfolding readings_of
  get_readings sensor_id p d =
      if valid_query p
      then elim (find_sensor_id sensor_id (sensors d)) [
        | none ↦ readings_answer no_readings
        | some sensor_row ↦ readings_of sensor_row p d
      ]
      else failed 422

  -- The handler of a route, with the validation of its payload.
  unfoldable pub handle : Route Raw → D → Answer × D
  handle (post_switchbot_sensors requested) d = create_switchbot_sensors requested d
  handle (post_switchbot_bulk sensor_id readings) d = create_switchbot_bulk sensor_id readings d
  handle (post_switchbot_reading reading) d = create_switchbot_reading reading d
  handle get_sensors d = (get_sensor_list d, d)
  handle get_meter_latest_v2 d = (get_meter_latest, d)
  handle (get_sensors_latest_v2 sensor_ids) d = get_latest sensor_ids d
  handle (get_sensor_readings sensor_id p) d = (get_readings sensor_id p d, d)

module _ {D Raw S : Type 0} (db : Session D) (m : MapStore S) (hz : ℕ) (cfg : AppConfig)
    (out : Outside Raw) where
  -- The dependencies of the router that a route is on.
  unfoldable pub guard : Route Raw → Request → S → S × Verdict
  guard (post_switchbot_sensors _) = device_guard m hz cfg.access api_key_read
  guard (post_switchbot_bulk _ _) = device_guard m hz cfg.access api_key_bulk_write
  guard (post_switchbot_reading _) = device_guard m hz cfg.access api_key_live_write
  guard get_sensors = sensor_read_limit m hz cfg.access
  guard get_meter_latest_v2 = sensor_read_limit m hz cfg.access
  guard (get_sensors_latest_v2 _) = sensor_read_limit m hz cfg.access
  guard (get_sensor_readings _ _) = sensor_read_limit m hz cfg.access

  -- The handler runs in a session of its own, which is closed after it.
  unfoldable pub after_guard : Verdict → Route Raw → D → Answer × D
  unfolding status_of
  after_guard granted route d =
      let (answer, t) = handle (in_transaction db) cfg out route (begin d) in (answer, t.committed)
  after_guard (rejected e) route d = (failed (status_of e), d)
  after_guard (limited secs) route d = (failed 429, d)
  after_guard crashed route d = (failed 500, d)

  -- A request to a route: the answer, and the limits and the database after it.
  unfoldable pub serve : Route Raw → Request → S → D → Answer × (S × D)
  unfolding guard after_guard
  serve route request s d =
      let (s', verdict) = guard route request s in
      let (answer, d') = after_guard verdict route d in (answer, (s', d'))
