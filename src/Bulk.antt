-- ===== src/Bulk.antt =====
-- server/app/service.py: `bulk_result_counts`, the ingestion of many readings of one sensor, each in
-- a savepoint of its own. What pydantic makes of a raw item is a parameter: whether it is an object,
-- and its timestamp, temperature and humidity, if they can be read.
pub mod Counts
pub mod Errors
mod Tests
use esp32_home_display.Prelude.{
  ℕ, suc, ◌+◌, ◌≡◌, Bool, true, false, Option, none, some, List, [], ◌∷◌, ◌++◌, length, leb,
  if◌then◌else◌,
}
use esp32_home_display.Text.{Str}
use esp32_home_display.Float.{Float}
use esp32_home_display.Result.{
  Error, Result, ok, err, Exec, lift, ◌>>=◌, bad_request, out_of_range, empty_name, malformed,
  unauthorized, misconfigured, integrity_error,
}
use esp32_home_display.Common.{ReadingIn, Datetime}
use esp32_home_display.Database.{Sensor, Session}
use esp32_home_display.Ingest.{
  IngestResult, created, duplicate, merged, conflict, merged_with_conflict, Classified,
  ingest_reading,
}
use esp32_home_display.Switchbot.{sensor_spec, validate_fields}

pub data Code : Type 0 where
  invalid_reading db_error conflict_code : Code

-- Why an item failed; the text of an unexpected exception is not shown.
pub data Failure : Type 0 where
  not_an_object internal_error : Failure
  rejected : Error → Failure

-- `BulkErrorOut`, and `BulkFailedRow`; the message of a conflict is fixed.
pub record BulkError : Type 0 where
  pub index : ℕ
  pub code : Code

pub record BulkFailedRow : Type 0 where
  pub index : ℕ
  pub reason : Failure

-- `BulkOut`, without the status, which is always "ok"
pub record BulkOut : Type 0 where
  pub received : ℕ
  pub succeeded : ℕ
  pub created : ℕ
  pub duplicate : ℕ
  pub conflict : ℕ
  pub invalid : ℕ
  pub errors : List BulkError
  pub failed : List BulkFailedRow

unfoldable pub add_bulk_error : ℕ → ℕ → Code → List BulkError → List BulkError
add_bulk_error error_limit index code errors =
    if leb error_limit (length errors)
    then errors
    else errors ++ record { index = index; code = code } ∷ []

-- The branches that count an item as invalid.
unfoldable pub count_invalid : ℕ → ℕ → Code → Failure → BulkOut → BulkOut
unfolding add_bulk_error
count_invalid error_limit index code reason result = record result {
  invalid = result.invalid + 1;
  errors = add_bulk_error error_limit index code result.errors;
  failed = result.failed ++ record { index = index; reason = reason } ∷ [];
}

-- The branches on `row_status`; the last one, for an unknown status, cannot be taken.
unfoldable pub count_status : ℕ → ℕ → IngestResult → BulkOut → BulkOut
unfolding add_bulk_error
count_status error_limit index IngestResult.created result = record result {
  created = result.created + 1;
  succeeded = result.succeeded + 1;
}
count_status error_limit index IngestResult.duplicate result = record result {
  duplicate = result.duplicate + 1;
  succeeded = result.succeeded + 1;
}
count_status error_limit index IngestResult.merged result = record result {
  created = result.created + 1;
  succeeded = result.succeeded + 1;
}
count_status error_limit index IngestResult.conflict result = record result {
  conflict = result.conflict + 1;
  succeeded = result.succeeded + 1;
  errors = add_bulk_error error_limit index conflict_code result.errors;
}
count_status error_limit index IngestResult.merged_with_conflict result = record result {
  conflict = result.conflict + 1;
  succeeded = result.succeeded + 1;
  errors = add_bulk_error error_limit index conflict_code result.errors;
}

-- The `except` clauses, by what was raised: a validation error and a bad request are shown, anything
-- else is an internal error.
unfoldable pub count_error : ℕ → ℕ → Error → BulkOut → BulkOut
unfolding count_invalid
count_error error_limit index (integrity_error constraint) result =
    count_invalid error_limit index db_error internal_error result
count_error error_limit index unauthorized result =
    count_invalid error_limit index db_error internal_error result
count_error error_limit index misconfigured result =
    count_invalid error_limit index db_error internal_error result
count_error error_limit index e result =
    count_invalid error_limit index invalid_reading (rejected e) result

unfoldable pub start_counts : ℕ → BulkOut
start_counts received = record {
  received = received;
  succeeded = 0;
  created = 0;
  duplicate = 0;
  conflict = 0;
  invalid = 0;
  errors = [];
  failed = [];
}

-- What follows the body of the `try`: the savepoint is released, or the database is rolled back to it.
unfoldable pub settle : {D : Type 0} → ℕ → ℕ → D → BulkOut → Result Classified × D → BulkOut × D
settle error_limit index savepoint result (ok c, d) =
    (count_status error_limit index c.result result, d)
settle error_limit index savepoint result (err e, d) =
    (count_error error_limit index e result, savepoint)

module _ {D Raw : Type 0} (db : Session D) (is_object : Raw → Bool)
    (parse : Raw → Option (Datetime × Float × Float)) where
  -- `reading_model(**{**raw, "mac": sensor_row.mac, "name": None})`
  unfoldable pub reading_of : Sensor → Raw → Result ReadingIn
  reading_of sensor_row raw = elim (parse raw) [
    | none ↦ err malformed
    | some (timestamp, temperature_c, humidity_pct) ↦ validate_fields (record {
      mac = sensor_row.mac;
      name = none;
      timestamp = timestamp;
      temperature_c = temperature_c;
      humidity_pct = humidity_pct;
    })
  ]

  -- The body of the `try`
  unfoldable pub ingest_raw : Sensor → Raw → Exec D Classified
  ingest_raw sensor_row raw = do
    reading ← lift (reading_of sensor_row raw)
    ingest_reading db sensor_spec false reading

  -- The body of the loop
  unfoldable pub bulk_step : ℕ → Sensor → ℕ → Raw → BulkOut × D → BulkOut × D
  unfolding settle
  bulk_step error_limit sensor_row index raw (result, d) =
      if is_object raw
      then settle error_limit index d result (ingest_raw sensor_row raw d)
      else (count_invalid error_limit index invalid_reading not_an_object result, d)

  unfoldable pub bulk_loop : ℕ → Sensor → ℕ → List Raw → BulkOut × D → BulkOut × D
  bulk_loop error_limit sensor_row index [] acc = acc
  bulk_loop error_limit sensor_row index (raw ∷ raws) acc =
      bulk_loop error_limit sensor_row (index + 1) raws
        (bulk_step error_limit sensor_row index raw acc)

  unfoldable pub bulk_result_counts : ℕ → Sensor → List Raw → D → BulkOut × D
  unfolding bulk_loop start_counts
  bulk_result_counts error_limit sensor_row raw_readings d =
      let (result, d') =
        bulk_loop error_limit sensor_row 0 raw_readings (start_counts (length raw_readings), d) in
      (result, db.commit d')
