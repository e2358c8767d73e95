-- ===== src/Ingest.antt =====
-- server/app/service.py: the ingestion of one reading, and the sensor rows that it needs.
pub mod Merge
pub mod Store
pub mod Undone
pub mod Classify
pub mod Repeat
mod Tests
use esp32_home_display.Prelude.{
  ℕ, ◌≡◌, Bool, true, false, ◌&&◌, ◌||◌, not, Option, none, some, List, [], ◌∷◌, ◌==◌,
  if◌then◌else◌,
}
use esp32_home_display.Text.{Str, str_eq}
use esp32_home_display.Float.{Float, feq}
use esp32_home_display.Result.{
  Result, ok, err, Exec, pure, raise, lift, gets, ◌>>=◌, ◌>>◌, and_then, bad_request,
  integrity_error, name_required, type_mismatch,
}
use esp32_home_display.Common.{
  DataField, ReadingIn, Datetime, validate_mac_address, normalize_timestamp_to_utc,
}
use esp32_home_display.Database.{
  Sensor, Row, Session, Written, done, violates, Assign, Condition, find_sensor, find_row,
}

-- `SensorSpec`, without its response model
pub record SensorSpec : Type 0 where
  pub db_sensor_type : ℕ
  pub unique_constraint_name : Str
  pub data_fields : List DataField

pub data IngestResult : Type 0 where
  created duplicate merged conflict merged_with_conflict : IngestResult

-- A `conflicting_field_ignored` warning.
pub record Warning : Type 0 where
  pub field : Str
  pub existing : Float
  pub incoming : Float

pub record Classified : Type 0 where
  pub result : IngestResult
  pub warnings : List Warning

-- What the loop over the fields collects: the warnings, and whether a value is filled in.
unfoldable pub classify_value :
    Str → Option Float → Option Float → List Warning × Bool → List Warning × Bool
classify_value name existing none acc = acc
classify_value name none (some value) (warnings, fills) = (warnings, true)
classify_value name (some old) (some value) (warnings, fills) =
    if feq old value
    then (warnings, fills)
    else (record { field = name; existing = old; incoming = value } ∷ warnings, fills)

unfoldable pub classify_fields :
    (Str → Option Float) → ReadingIn → List DataField → List Warning × Bool
unfolding classify_value
classify_fields existing incoming [] = ([], false)
classify_fields existing incoming (field ∷ fields) =
    classify_value field.name (existing field.name) (field.getter incoming)
      (classify_fields existing incoming fields)

unfoldable pub verdict : List Warning × Bool → Classified
verdict ([], false) = record { result = duplicate; warnings = [] }
verdict ([], true) = record { result = merged; warnings = [] }
verdict (w ∷ ws, false) = record { result = conflict; warnings = w ∷ ws }
verdict (w ∷ ws, true) = record { result = merged_with_conflict; warnings = w ∷ ws }

unfoldable pub classify_existing_reading :
    Option (Str → Option Float) → ReadingIn → List DataField → Classified
unfolding verdict classify_fields
classify_existing_reading none incoming fields = record { result = created; warnings = [] }
classify_existing_reading (some existing) incoming fields =
    verdict (classify_fields existing incoming fields)

-- What is logged on the way is left out.
unfoldable pub prepare_reading : ReadingIn → Result ReadingIn
prepare_reading reading = and_then (validate_mac_address reading.mac) λ mac.
    and_then (normalize_timestamp_to_utc reading.timestamp)
      λ timestamp. ok (record reading { mac = mac; timestamp = timestamp })

-- `field.name` of one of the fields
unfoldable pub is_field : List DataField → Str → Bool
is_field [] name = false
is_field (field ∷ fields) name = if str_eq field.name name then true else is_field fields name

-- `reading.model_dump`: the value of the field of that name
unfoldable pub value_of : List DataField → ReadingIn → Str → Option Float
value_of [] reading name = none
value_of (field ∷ fields) reading name =
    if str_eq field.name name then field.getter reading else value_of fields reading name

-- `func.coalesce`
unfoldable pub coalesce : Option Float → Option Float → Option Float
coalesce none new = new
coalesce (some old) new = some old

-- `and_(col.is_(None), excluded_col.is_not(None))`
unfoldable pub fills_null : Option Float → Option Float → Bool
fills_null none (some value) = true
fills_null none none = false
fills_null (some old) new = false

-- `set_`: each data field keeps its value, or takes the new one where it has none.
unfoldable pub merge_fields : List DataField → Assign
unfolding is_field coalesce
merge_fields fields old new name =
    if is_field fields name then coalesce (old.values name) (new.values name) else old.values name

-- `where`: some data field is NULL and gets a value.
unfoldable pub merge_needed : List DataField → Condition
unfolding fills_null
merge_needed [] old new = false
merge_needed (field ∷ fields) old new =
    fills_null (old.values field.name) (new.values field.name) || merge_needed fields old new

unfoldable pub row_of : SensorSpec → Sensor → ReadingIn → Row
row_of spec sensor_row reading = record {
  sensor_id = sensor_row.id;
  mac = reading.mac;
  timestamp = reading.timestamp.instant;
  values = value_of spec.data_fields reading;
}

-- A broken constraint: without `commit` it is raised; with it the transaction, which began at
-- `start`, is rolled back, and only the expected constraint is passed over.
unfoldable pub on_violation : {D : Type 0} → SensorSpec → Bool → D → Str → Exec D (Option Bool)
on_violation spec commit start constraint d =
    if not commit
    then (err (integrity_error constraint), d)
    else if str_eq constraint spec.unique_constraint_name
    then (ok none, start)
    else (err (integrity_error constraint), start)

-- `existing_values is None and row is not None and row.inserted`
unfoldable pub report :
    List DataField → ReadingIn → Option (Str → Option Float) → Option Bool → Classified
report fields reading none (some true) = record { result = created; warnings = [] }
report fields reading existing row = classify_existing_reading existing reading fields

module _ {D : Type 0} (db : Session D) where
  open db use {sensors, readings, insert_sensor, rename_sensor, upsert_row}

  unfoldable pub get_sensor_by_mac : Str → D → Option Sensor
  get_sensor_by_mac mac d = find_sensor mac (sensors d)

  unfoldable pub reconcile_sensor_name : Sensor → Option Str → Exec D Sensor
  reconcile_sensor_name sensor none d = (ok sensor, d)
  reconcile_sensor_name sensor (some name) d =
      if str_eq sensor.name name
      then (ok sensor, d)
      else (ok (record sensor { name = name }), rename_sensor d sensor name)

  -- `db.add`, `db.flush`, and the row with the id that the database gave it
  unfoldable pub add_sensor : Str → Str → ℕ → Exec D Sensor
  add_sensor mac name type d = elim (insert_sensor d mac name type) [
    | violates constraint ↦ (err (integrity_error constraint), d)
    | done d' _ ↦ elim (find_sensor mac (sensors d')) [
      | none ↦ (err (integrity_error mac), d')
      | some sensor ↦ (ok sensor, d')
    ]
  ]

  unfoldable pub ensure_known : Option Sensor → Str → Option Str → ℕ → Exec D Sensor
  unfolding add_sensor reconcile_sensor_name
  ensure_known none mac none type = raise (bad_request name_required)
  ensure_known none mac (some name) type = add_sensor mac name type
  ensure_known (some sensor) mac name type =
      if sensor.type == type
      then reconcile_sensor_name sensor name
      else raise (bad_request type_mismatch)

  unfoldable pub ensure_sensor : Str → Option Str → ℕ → Exec D Sensor
  unfolding get_sensor_by_mac
  ensure_sensor mac name type d = ensure_known (get_sensor_by_mac mac d) mac name type d

  unfoldable pub get_existing_values : ReadingIn → D → Option (Str → Option Float)
  get_existing_values reading d =
      elim (find_row reading.mac reading.timestamp.instant (readings d)) [
        | none ↦ none
        | some row ↦ some (row.values)
      ]

  unfoldable pub commit_if : Bool → D → D
  commit_if commit d = if commit then db.commit d else d

  unfoldable pub execute_reading_upsert :
      SensorSpec → Bool → D → ReadingIn → Sensor → Exec D (Option Bool)
  unfolding on_violation commit_if
  execute_reading_upsert spec commit start reading sensor_row d =
      let written =
        upsert_row d (merge_fields spec.data_fields) (merge_needed spec.data_fields)
          (row_of spec sensor_row reading) in
      elim written [
        | done d' row ↦ (ok row, commit_if commit d')
        | violates constraint ↦ on_violation spec commit start constraint d
      ]

  unfoldable pub ingest_prepared : SensorSpec → Bool → ReadingIn → Exec D Classified
  ingest_prepared spec commit reading start =
      (do
        sensor_row ← ensure_sensor reading.mac reading.name spec.db_sensor_type
        existing ← gets (get_existing_values reading)
        row ← execute_reading_upsert spec commit start reading sensor_row
        pure (report spec.data_fields reading existing row))
        start

  unfoldable pub ingest_reading : SensorSpec → Bool → ReadingIn → Exec D Classified
  ingest_reading spec commit reading = do
    prepared ← lift (prepare_reading reading)
    ingest_prepared spec commit prepared
