-- ===== src/Sync.antt =====
-- server/app/service.py: which stretches of time a sensor has no readings for. A client asks for
-- them before it uploads its history. Timestamps and durations are in microseconds.
pub mod Gaps
pub mod Silence
pub mod Steps
pub mod Cap
mod Tests
use Prim.Native.Nat.{min, max}
use esp32_home_display.Prelude.{
  ℕ, ◌+◌, ◌-◌, ◌*◌, ◌≡◌, Bool, true, false, ◌||◌, Option, none, some, List, [], ◌∷◌, ◌++◌, pos,
  sub_ℕ, ltb_ℤ, length, drop, take, ltb, leb, ◌==◌, if◌then◌else◌,
}
use esp32_home_display.Text.{Str, codes, str_eq, is_empty}
use esp32_home_display.Result.{
  Result, ok, err, Exec, pure, raise, lift, gets, ◌>>=◌, bad_request, integrity_error, not_resolved,
  type_mismatch,
}
use esp32_home_display.Common.{validate_mac_address, microseconds_per_day}
use esp32_home_display.Database.{Sensor, Row, Session, Written, done, violates, find_sensor}
use esp32_home_display.Ingest.{SensorSpec, get_sensor_by_mac, reconcile_sensor_name}

pub record Interval : Type 0 where
  pub start : ℕ
  pub end : ℕ

-- `sorted`, by insertion
unfoldable pub sorted_insert : ℕ → List ℕ → List ℕ
sorted_insert x [] = x ∷ []
sorted_insert x (y ∷ ys) = if leb x y then x ∷ y ∷ ys else y ∷ sorted_insert x ys

unfoldable pub sorted : List ℕ → List ℕ
unfolding sorted_insert
sorted [] = []
sorted (x ∷ xs) = sorted_insert x (sorted xs)

-- The timestamps of the sensor's rows, from `after` on.
unfoldable pub select_timestamps : ℕ → ℕ → List Row → List ℕ
select_timestamps sensor_id after [] = []
select_timestamps sensor_id after (row ∷ rows) =
    let rest = select_timestamps sensor_id after rows in
    if row.sensor_id == sensor_id
    then if leb after row.timestamp then row.timestamp ∷ rest else rest
    else rest

-- The descending order and the limit of the statement keep the latest ones; `sorted` turns them.
unfoldable pub get_sensor_timestamps : ℕ → ℕ → ℕ → List Row → List ℕ
unfolding select_timestamps sorted
get_sensor_timestamps sensor_id after limit rows =
    let ascending = sorted (select_timestamps sensor_id after rows) in
    drop (length ascending - limit) ascending

-- `func.min` and `func.max`
unfoldable pub get_sensor_timestamp_bounds : ℕ → List Row → Option (ℕ × ℕ)
get_sensor_timestamp_bounds sensor_id [] = none
get_sensor_timestamp_bounds sensor_id (row ∷ rows) =
    let rest = get_sensor_timestamp_bounds sensor_id rows in
    if row.sensor_id == sensor_id
    then elim rest [
      | none ↦ some (row.timestamp, row.timestamp)
      | some (lo, hi) ↦ some (min row.timestamp lo, max row.timestamp hi)
    ]
    else rest

-- The loop over `zip(timestamps, timestamps[1:])`
unfoldable pub gaps : ℕ → List ℕ → List Interval
gaps gap_threshold [] = []
gaps gap_threshold (current ∷ []) = []
gaps gap_threshold (current ∷ next_timestamp ∷ rest) =
    let intervals = gaps gap_threshold (next_timestamp ∷ rest) in
    if ltb_ℤ (sub_ℕ next_timestamp current) (pos gap_threshold)
    then intervals
    else record { start = current; end = next_timestamp } ∷ intervals

-- `intervals[-max_intervals:] if max_intervals > 0 else []` keeps the latest ones.
unfoldable pub cap_intervals : ℕ → List Interval → List Interval × Bool
cap_intervals max_intervals intervals =
    if ltb max_intervals (length intervals)
    then (drop (length intervals - max_intervals) intervals, true)
    else (intervals, false)

unfoldable pub build_sync_intervals : ℕ → ℕ → List ℕ → List Interval × Bool
unfolding cap_intervals
build_sync_intervals gap_threshold max_intervals timestamps =
    cap_intervals max_intervals (gaps gap_threshold timestamps)

abbrev pub sync_retention : ℕ
sync_retention = 68 * (86_400 * 1_000_000)

abbrev pub sync_timestamps_max : ℕ
sync_timestamps_max = 20_000

-- The dictionary that `get_sensor_sync_state` returns.
pub record SyncState : Type 0 where
  pub mac : Str
  pub sensor_id : ℕ
  pub bounds : Option (ℕ × ℕ)
  pub sync_intervals : List Interval
  pub sync_intervals_capped : Bool

unfoldable pub get_sensor_sync_state : ℕ → ℕ → ℕ → Sensor → List Row → SyncState
unfolding get_sensor_timestamps get_sensor_timestamp_bounds build_sync_intervals
get_sensor_sync_state now gap_threshold max_intervals sensor_row rows =
    let timestamps =
      get_sensor_timestamps sensor_row.id (now - sync_retention) sync_timestamps_max rows in
    let (intervals, capped) = build_sync_intervals gap_threshold max_intervals timestamps in
    record {
      mac = sensor_row.mac;
      sensor_id = sensor_row.id;
      bounds = get_sensor_timestamp_bounds sensor_row.id rows;
      sync_intervals = intervals;
      sync_intervals_capped = capped;
    }

-- `SensorIn`
pub record SensorIn : Type 0 where
  pub mac : Str
  pub name : Option Str

-- `name or mac`
unfoldable pub name_or_mac : Option Str → Str → Str
name_or_mac none mac = mac
name_or_mac (some name) mac = if is_empty name then mac else name

-- The loop's variables: the states so far, what is left of the total, and whether any was capped.
pub record Progress : Type 0 where
  pub resolved : List SyncState
  pub remaining_total : ℕ
  pub any_capped : Bool

pub record SensorsOut : Type 0 where
  pub sensors : List SyncState
  pub capped_warning : Bool

-- What the body of the loop does once the sensor row is there.
unfoldable pub add_state : ℕ → ℕ → ℕ → Progress → Sensor → List Row → Progress
unfolding get_sensor_sync_state
add_state now gap_threshold per_sensor_limit p sensor_row rows =
    let allowed_for_sensor = min per_sensor_limit p.remaining_total in
    let state = get_sensor_sync_state now gap_threshold allowed_for_sensor sensor_row rows in
    record {
      resolved = p.resolved ++ state ∷ [];
      remaining_total = p.remaining_total - length state.sync_intervals;
      any_capped = state.sync_intervals_capped || p.any_capped;
    }

module _ {D : Type 0} (db : Session D) where
  open db use {sensors, readings, insert_sensor}

  -- `on_conflict_do_nothing(index_elements=[Sensor.mac])`: a taken key is no error.
  unfoldable pub insert_or_nothing : Str → Str → ℕ → Exec D (Unit {0})
  insert_or_nothing mac name type d = elim (insert_sensor d mac name type) [
    | done d' _ ↦ (ok tt, d')
    | violates constraint ↦
        if str_eq constraint (codes "sensors_pkey")
        then (ok tt, d)
        else (err (integrity_error constraint), d)
  ]

  -- The row, once it has been looked up a second time if it had to be inserted.
  unfoldable pub resolve : Str → Option Str → ℕ → Option Sensor → Exec D (Option Sensor)
  unfolding insert_or_nothing get_sensor_by_mac name_or_mac
  resolve mac name type (some sensor) = pure (some sensor)
  resolve mac name type none = do
    _ ← insert_or_nothing mac (name_or_mac name mac) type
    gets (get_sensor_by_mac db mac)

  unfoldable pub checked : Option Str → ℕ → Option Sensor → Exec D Sensor
  unfolding reconcile_sensor_name
  checked name type none = raise (bad_request not_resolved)
  checked name type (some sensor) =
      if sensor.type == type
      then reconcile_sensor_name db sensor name
      else raise (bad_request type_mismatch)

  unfoldable pub get_or_create_sensor_for_sync : SensorIn → ℕ → Exec D Sensor
  unfolding resolve checked
  get_or_create_sensor_for_sync requested type = do
    mac ← lift (validate_mac_address requested.mac)
    known ← gets (get_sensor_by_mac db mac)
    sensor ← resolve mac requested.name type known
    checked requested.name type sensor

  unfoldable pub sync_loop : ℕ → ℕ → ℕ → ℕ → List SensorIn → Progress → Exec D Progress
  unfolding add_state
  sync_loop now gap_threshold per_sensor_limit type [] p = pure p
  sync_loop now gap_threshold per_sensor_limit type (requested ∷ rest) p = do
    sensor_row ← get_or_create_sensor_for_sync requested type
    rows ← gets readings
    sync_loop now gap_threshold per_sensor_limit type rest
        (add_state now gap_threshold per_sensor_limit p sensor_row rows)

  unfoldable pub get_or_create_sensors_with_sync_state :
      ℕ → List SensorIn → SensorSpec → ℕ → ℕ → ℕ → Exec D SensorsOut
  unfolding sync_loop
  get_or_create_sensors_with_sync_state now requested_sensors sensor gap_threshold_minutes
        max_intervals_per_sensor max_intervals_total =
      do
        p ←
            sync_loop now (gap_threshold_minutes * 60_000_000) max_intervals_per_sensor
              sensor.db_sensor_type requested_sensors
              (record { resolved = []; remaining_total = max_intervals_total; any_capped = false })
        _ ← λ d. (ok tt, db.commit d)
        pure (record { sensors = p.resolved; capped_warning = p.any_capped })
