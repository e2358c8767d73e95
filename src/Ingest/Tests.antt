-- ===== src/Ingest/Tests.antt =====
-- Readings ingested into tables in memory.
use esp32_home_display.Prelude.{
  ℕ, ◌≡◌, refl, true, ◌&&◌, none, some, [], ◌∷◌, pos, ◌==◌, if◌then◌else◌,
}
use esp32_home_display.Text.{Str, codes, str_eq, upper}
use esp32_home_display.Float.{finite, feq}
use esp32_home_display.Result.{ok}
use esp32_home_display.Common.{
  ReadingIn, mac_address_re, validate_mac_address, normalize_timestamp_to_utc,
}
use esp32_home_display.Database.{Sensor, Row, find_sensor, find_row, switchbot_type}
use esp32_home_display.Database.Memory.{Tables, memory_session, upsert_row, insert_sensor}
use esp32_home_display.Ingest.{
  IngestResult, reconcile_sensor_name, created, duplicate, conflict, value_of, coalesce,
  prepare_reading, ingest_reading, ensure_sensor, ensure_known, ingest_prepared, report,
  classify_existing_reading, merge_needed, row_of, get_existing_values, execute_reading_upsert,
}
use esp32_home_display.Ingest.Store.{Arbitrated, column, ingest_reading_merges}
use esp32_home_display.Ingest.Classify.{Named, conflicts, verdict_of, classify_exact}
use esp32_home_display.Ingest.Repeat.{ingest_again_keeps, ingest_again_duplicate}
use esp32_home_display.Switchbot.{sensor_spec}

abbrev pub home : Tables
home = record { sensors = []; readings = [] }

abbrev pub sent_mac : Str
sent_mac = codes "aa:bb:cc:dd:ee:01"

abbrev pub stored_mac : Str
stored_mac = codes "AA:BB:CC:DD:EE:01"

abbrev reading_at : ℕ → ℕ → ReadingIn
reading_at when degrees = record {
  mac = sent_mac;
  name = some (codes "Kitchen");
  timestamp = record { instant = when; tzinfo = some (pos 3600) };
  temperature_c = finite (pos degrees);
  humidity_pct = finite (pos 40);
}

abbrev prepared_at : ℕ → ℕ → ReadingIn
prepared_at when degrees = record (reading_at when degrees) {
  mac = stored_mac;
  timestamp = record { instant = when; tzinfo = some (pos 0) };
}

abbrev kitchen : Sensor
kitchen = record { mac = stored_mac; id = 1; name = codes "Kitchen"; type = switchbot_type }

abbrev row_at : ℕ → ℕ → Row
row_at when degrees = record {
  sensor_id = 1;
  mac = stored_mac;
  timestamp = when;
  values = value_of sensor_spec.data_fields (prepared_at when degrees);
}

abbrev pub with_reading : Tables
with_reading = record { sensors = kitchen ∷ []; readings = row_at 7 21 ∷ [] }

prepare_example : prepare_reading (reading_at 7 21) ≡ ok (prepared_at 7 21)
unfolding prepare_reading validate_mac_address mac_address_re upper normalize_timestamp_to_utc
prepare_example = refl

ingest_new :
    ingest_reading memory_session sensor_spec true (reading_at 7 21) home
    ≡ (ok (record { result = created; warnings = [] }), with_reading)
unfolding ingest_reading prepare_reading validate_mac_address mac_address_re
    normalize_timestamp_to_utc ingest_prepared ensure_sensor ensure_known find_sensor insert_sensor
    str_eq upper execute_reading_upsert upsert_row report row_of get_existing_values
ingest_new = refl

ingest_again :
    ingest_reading memory_session sensor_spec true (reading_at 7 21) with_reading
    ≡ (ok (record { result = duplicate; warnings = [] }), with_reading)
unfolding ingest_reading prepare_reading validate_mac_address mac_address_re
    normalize_timestamp_to_utc ingest_prepared ensure_sensor ensure_known find_sensor insert_sensor
    str_eq upper execute_reading_upsert upsert_row report row_of get_existing_values
    classify_existing_reading merge_needed value_of feq reconcile_sensor_name
ingest_again = refl

-- The tables in memory break no constraint on readings.
pub home-Arbitrated : Arbitrated memory_session sensor_spec
unfolding upsert_row
home-Arbitrated d set test new h = cc

reading-Named : Named sensor_spec.data_fields sensor_spec.data_fields (prepared_at 7 21)
unfolding value_of str_eq
reading-Named = (refl, (refl, tt))

ingest_reading_merges_example :
    column (find_row stored_mac 7 with_reading.readings) (codes "temperature_c") ≡ (
      if str_eq stored_mac stored_mac && 7 == 7
      then coalesce none (some (finite (pos 21)))
      else none)
unfolding value_of str_eq find_row
ingest_reading_merges_example =
    ingest_reading_merges memory_session sensor_spec true (reading_at 7 21) (prepared_at 7 21) home
      with_reading (record { result = created; warnings = [] }) stored_mac 7 (codes "temperature_c")
      home-Arbitrated prepare_example ingest_new

ingest_again_keeps_example :
    column (find_row stored_mac 7 with_reading.readings) (codes "humidity_pct")
    ≡ column (find_row stored_mac 7 with_reading.readings) (codes "humidity_pct")
ingest_again_keeps_example =
    ingest_again_keeps memory_session sensor_spec true (reading_at 7 21) (prepared_at 7 21) home
      with_reading with_reading (record { result = created; warnings = [] })
      (record { result = duplicate; warnings = [] }) stored_mac 7 (codes "humidity_pct")
      home-Arbitrated prepare_example ingest_new ingest_again

ingest_again_duplicate_example : ◌≡◌ {A = IngestResult} duplicate duplicate
unfolding find_row
ingest_again_duplicate_example =
    ingest_again_duplicate memory_session sensor_spec true (reading_at 7 21) (prepared_at 7 21) home
      with_reading with_reading (record { result = created; warnings = [] })
      (record { result = duplicate; warnings = [] }) home-Arbitrated reading-Named
      ((λ e. cc), ((λ e. cc), tt)) prepare_example refl ingest_new ingest_again

-- A stored temperature of 20 and an incoming one of 21.
classify_exact_example :
    (classify_existing_reading
      (some ((row_at 7 20).values))
      (prepared_at 7 21)
      sensor_spec.data_fields).result
    ≡ verdict_of
        (merge_needed sensor_spec.data_fields (row_at 7 20) (row_at 7 21))
        (conflicts (row_at 7 20).values (prepared_at 7 21) sensor_spec.data_fields)
classify_exact_example =
    classify_exact sensor_spec.data_fields (row_at 7 20) (row_at 7 21) (prepared_at 7 21)
      (λ name. refl) reading-Named

verdict_on_conflict :
    verdict_of
      (merge_needed sensor_spec.data_fields (row_at 7 20) (row_at 7 21))
      (conflicts (row_at 7 20).values (prepared_at 7 21) sensor_spec.data_fields)
    ≡ conflict
unfolding merge_needed value_of str_eq feq
verdict_on_conflict = refl
