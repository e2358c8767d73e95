-- ===== src/Ingest/Store.antt =====
-- What an accepted reading leaves in the database.
use esp32_home_display.Prelude.{
  ℕ, ◌≡◌, refl, ap, ◌∙◌, ◌≢◌, Bool, Option, none, some, ◌&&◌, ◌==◌, arith, inl, inr, Bool-cases,
  Option-cases, if◌then◌else◌,
}
use esp32_home_display.Text.{Str, str_eq}
use esp32_home_display.Text.Laws.{eq_of_str_eq}
use esp32_home_display.Float.{Float}
use esp32_home_display.Result.{ok}
use esp32_home_display.Result.Laws.{Exec-cases}
use esp32_home_display.Common.{ReadingIn}
use esp32_home_display.Database.{
  Sensor, Row, Session, Written-cases, done, violates, find_row, find_sensor, after_upsert, Assign,
  Condition,
}
use esp32_home_display.Ingest.{
  SensorSpec, Classified, coalesce, value_of, row_of, merge_fields, merge_needed, prepare_reading,
  get_existing_values, report, add_sensor, get_sensor_by_mac, reconcile_sensor_name, ensure_sensor,
  ensure_known, execute_reading_upsert, ingest_prepared, ingest_reading,
}
use esp32_home_display.Ingest.Merge.{upsert_values}

-- The value of a column before the reading arrives: NULL where there is no row.
abbrev pub column : Option Row → Str → Option Float
column none name = none
column (some row) name = row.values name

module _ {D : Type 0} (db : Session D) (spec : SensorSpec) where
  open db use {sensors, readings, upsert_row}

  -- PostgreSQL: an insert with ON CONFLICT on a unique index does not break that index.
  abbrev pub Arbitrated : Type 0
  Arbitrated =
      (d : D) (set : Assign) (test : Condition) (new : Row)
      → upsert_row d set test new ≢ violates spec.unique_constraint_name

  add_sensor-readings :
      (mac name : Str) (type : ℕ) (d d' : D) (s : Sensor)
      → add_sensor db mac name type d ≡ (ok s, d')
      → readings d' ≡ readings d
  unfolding add_sensor
  add_sensor-readings mac name type d d' s h =
      elim (Written-cases (db.insert_sensor d mac name type)) [
        | inl (d1, _, e) ↦ elim (Option-cases (find_sensor mac (sensors d1))) [
          | inl lost ↦ absurd (ground arith)
          | inr (new, found) ↦ ground (arith, db.insert_sensor_readings d d1 mac name type e)
        ]
        | inr (c, e) ↦ absurd (ground arith)
      ]

  ensure_known-readings :
      (known : Option Sensor) (mac : Str) (name : Option Str) (type : ℕ) (d d' : D) (s : Sensor)
      → ensure_known db known mac name type d ≡ (ok s, d')
      → readings d' ≡ readings d
  unfolding ensure_known reconcile_sensor_name
  ensure_known-readings none mac none type d d' s h = absurd (ground arith)
  ensure_known-readings none mac (some name) type d d' s h =
      add_sensor-readings mac name type d d' s h
  ensure_known-readings (some sensor) mac none type d d' s h = ground arith
  ensure_known-readings (some sensor) mac (some name) type d d' s h =
      ground (arith, db.rename_sensor_readings d sensor name)

  ensure_sensor-readings :
      (mac : Str) (name : Option Str) (type : ℕ) (d d' : D) (s : Sensor)
      → ensure_sensor db mac name type d ≡ (ok s, d')
      → readings d' ≡ readings d
  unfolding ensure_sensor
  ensure_sensor-readings mac name type d d' s h =
      ensure_known-readings (get_sensor_by_mac db mac d) mac name type d d' s h

  upsert_done :
      (commit : Bool) (start : D) (reading : ReadingIn) (s : Sensor) (d d' : D) (r : Option Bool)
      → Arbitrated
      → execute_reading_upsert db spec commit start reading s d ≡ (ok r, d')
      → (d1 : D) × (upsert_row d
            (merge_fields spec.data_fields)
            (merge_needed spec.data_fields)
            (row_of spec s reading)
          ≡ done d1 r)
        × (readings d' ≡ readings d1)
  unfolding execute_reading_upsert
  upsert_done commit start reading s d d' r arb h =
      let written =
        upsert_row d (merge_fields spec.data_fields) (merge_needed spec.data_fields)
          (row_of spec s reading) in
      elim (Written-cases written) [
        | inl (d1, a, e) ↦ (d1, ground arith, ground (arith, h, e, db.commit_readings d1))
        | inr (c, e) ↦ elim (Bool-cases (str_eq c spec.unique_constraint_name)) [
          | inl expected ↦ absurd (arb _ _ _ _ (e ∙ ap violates (eq_of_str_eq c _ expected)))
          | inr other ↦ absurd (ground arith)
        ]
      ]

  -- The steps of a call that did not raise: the sensor row, then the statement that broke nothing.
  pub record Accepted (p : ReadingIn) (d d' : D) (c : Classified) : Type 0 where
    pub sensor_row : Sensor
    pub ready : D
    pub returned : Option Bool
    pub ensured : ensure_sensor db p.mac p.name spec.db_sensor_type d ≡ (ok sensor_row, ready)
    pub written : D
    pub wrote :
        upsert_row ready
          (merge_fields spec.data_fields)
          (merge_needed spec.data_fields)
          (row_of spec sensor_row p)
        ≡ done written returned
    pub kept : readings d' ≡ readings written
    pub reported : c ≡ report spec.data_fields p (get_existing_values db p ready) returned

  prepared-Accepted :
      (commit : Bool) (p : ReadingIn) (d d' : D) (c : Classified)
      → Arbitrated
      → ingest_prepared db spec commit p d ≡ (ok c, d')
      → Accepted p d d' c
  unfolding ingest_prepared
  prepared-Accepted commit p d d' c arb h =
      elim (Exec-cases (ensure_sensor db p.mac p.name spec.db_sensor_type d)) [
        | inr (e, d1, failed) ↦ absurd (ground arith)
        | inl (s, d1, ensured) ↦
            elim (Exec-cases (execute_reading_upsert db spec commit d p s d1)) [
              | inr (e, d2, failed) ↦ absurd (ground arith)
              | inl (r, d2, executed) ↦
                  let done_by = upsert_done commit d p s d1 d' r arb (ground arith) in
                  record {
                    sensor_row = s;
                    ready = d1;
                    returned = r;
                    ensured = ensured;
                    written = done_by.0;
                    wrote = done_by.1;
                    kept = done_by.2;
                    reported = ground arith;
                  }
            ]
      ]

  pub ingest-Accepted :
      (commit : Bool) (reading p : ReadingIn) (d d' : D) (c : Classified)
      → Arbitrated
      → prepare_reading reading ≡ ok p
      → ingest_reading db spec commit reading d ≡ (ok c, d')
      → Accepted p d d' c
  unfolding ingest_reading
  ingest-Accepted commit reading p d d' c arb e h =
      prepared-Accepted commit p d d' c arb (ground arith)

  abbrev pub old_row : ReadingIn → D → Option Row
  old_row p d = find_row p.mac p.timestamp.instant (readings d)

  -- The row that is stored under the key of the reading.
  abbrev pub stored_row : ReadingIn → Sensor → Option Row → Row
  stored_row p s old =
      after_upsert (merge_fields spec.data_fields) (merge_needed spec.data_fields) (row_of spec s p)
        old

  pub Accepted-readings :
      {p : ReadingIn} {d d' : D} {c : Classified} (a : Accepted p d d' c)
      → readings a.ready ≡ readings d
  Accepted-readings {p} {d} a =
      ensure_sensor-readings p.mac p.name spec.db_sensor_type d a.ready a.sensor_row a.ensured

  pub Accepted-finds :
      {p : ReadingIn} {d d' : D} {c : Classified} (a : Accepted p d d' c) (mac : Str)
      (timestamp : ℕ)
      → find_row mac timestamp (readings d') ≡ (
          if str_eq p.mac mac && p.timestamp.instant == timestamp
          then some (stored_row p a.sensor_row (old_row p d))
          else find_row mac timestamp (readings d))
  unfolding row_of
  Accepted-finds {p} {d} {d'} a mac timestamp =
      rw (a.kept, ← Accepted-readings a)
        (db.upsert_row_finds a.ready a.written _ _ _ a.returned mac timestamp a.wrote)

  stored_values :
      (p : ReadingIn) (s : Sensor) (old : Option Row) (name : Str)
      → (stored_row p s old).values name
        ≡ coalesce (column old name) (value_of spec.data_fields p name)
  unfolding row_of after_upsert coalesce
  stored_values p s none name = refl
  stored_values p s (some row) name =
      upsert_values spec.data_fields p row (row_of spec s p) name refl

-- A reading that is accepted, under the canonical MAC address and UTC timestamp of `p`, leaves a row
-- in which every column has its old value, or the incoming one where it was NULL or there was no
-- row: stored values are never overwritten. Rows under other keys stay as they were.
pub ingest_reading_merges :
    {D : Type 0} (db : Session D) (spec : SensorSpec) (commit : Bool) (reading p : ReadingIn)
    (d d' : D) (c : Classified) (mac : Str) (timestamp : ℕ) (name : Str)
    → Arbitrated db spec
    → prepare_reading reading ≡ ok p
    → ingest_reading db spec commit reading d ≡ (ok c, d')
    → column (find_row mac timestamp (db.readings d')) name ≡ (
        if str_eq p.mac mac && p.timestamp.instant == timestamp
        then coalesce
            (column (find_row mac timestamp (db.readings d)) name)
            (value_of spec.data_fields p name)
        else column (find_row mac timestamp (db.readings d)) name)
ingest_reading_merges db spec commit reading p d d' c mac timestamp name arb e h =
    let a = ingest-Accepted db spec commit reading p d d' c arb e h in
    let finds = Accepted-finds db spec a mac timestamp in
    let values = stored_values db spec p a.sensor_row (old_row db spec p d) name in
    ground (arith, eq_of_str_eq p.mac mac, finds, values)
