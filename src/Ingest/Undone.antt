-- ===== src/Ingest/Undone.antt =====
-- server/app/service.py: an ingest that raises leaves alone what the insert and the renaming of a
-- sensor leave alone, as what is committed.
use esp32_home_display.Prelude.{
  ℕ, ◌≡◌, refl, sym, ap, ◌∙◌, arith, inl, inr, Bool, Option, none, some, Option-cases,
}
use esp32_home_display.Text.{Str}
use esp32_home_display.Result.{Error, err}
use esp32_home_display.Result.Laws.{Exec-cases, Result-cases}
use esp32_home_display.Common.{ReadingIn}
use esp32_home_display.Database.{Sensor, Session, done, Written-cases, find_sensor}
use esp32_home_display.Database.Keeps.{Keeps}
use esp32_home_display.Ingest.{
  SensorSpec, prepare_reading, get_sensor_by_mac, reconcile_sensor_name, add_sensor, ensure_known,
  ensure_sensor, merge_fields, merge_needed, row_of, on_violation, execute_reading_upsert,
  ingest_prepared, ingest_reading,
}

module _ {D X : Type 0} (db : Session D) (view : D → X)
    (inserts : (d d' : D) (mac name : Str) (type : ℕ)
      → db.insert_sensor d mac name type ≡ done d' tt
      → view d' ≡ view d)
    (renames : (d : D) (s : Sensor) (name : Str) → view (db.rename_sensor d s name) ≡ view d) where
  add_sensor-Keeps : (mac name : Str) (type : ℕ) → Keeps view (add_sensor db mac name type)
  unfolding add_sensor
  add_sensor-Keeps mac name type d = elim (Written-cases (db.insert_sensor d mac name type)) [
    | inl (d1, _, e) ↦ elim (Option-cases (find_sensor mac (db.sensors d1))) [
      | inl lost ↦ ground (arith, inserts d d1 mac name type e)
      | inr (new, found) ↦ ground (arith, inserts d d1 mac name type e)
    ]
    | inr (c, e) ↦ rw (add_sensor, e) refl
  ]

  ensure_known-Keeps :
      (known : Option Sensor) (mac : Str) (name : Option Str) (type : ℕ)
      → Keeps view (ensure_known db known mac name type)
  unfolding ensure_known reconcile_sensor_name
  ensure_known-Keeps none mac none type d = refl
  ensure_known-Keeps none mac (some name) type d = add_sensor-Keeps mac name type d
  ensure_known-Keeps (some sensor) mac none type d = ground arith
  ensure_known-Keeps (some sensor) mac (some name) type d = ground (arith, renames d sensor name)

  ensure_sensor-Keeps :
      (mac : Str) (name : Option Str) (type : ℕ) → Keeps view (ensure_sensor db mac name type)
  unfolding ensure_sensor
  ensure_sensor-Keeps mac name type d =
      ensure_known-Keeps (get_sensor_by_mac db mac d) mac name type d

  upsert_raises :
      (spec : SensorSpec) (commit : Bool) (start : D) (reading : ReadingIn) (s : Sensor) (d d' : D)
      (x : Error)
      → view d ≡ view start
      → execute_reading_upsert db spec commit start reading s d ≡ (err x, d')
      → view d' ≡ view start
  unfolding execute_reading_upsert on_violation
  upsert_raises spec commit start reading s d d' x same h =
      elim (Written-cases (
        db.upsert_row d (merge_fields spec.data_fields) (merge_needed spec.data_fields)
          (row_of spec s reading))) [
            | inl (d1, a, e) ↦ absurd (ground (arith, h, e))
            | inr (c, e) ↦ ground (arith, h, e, same)
          ]

  prepared_raises :
      (spec : SensorSpec) (commit : Bool) (p : ReadingIn) (d d' : D) (x : Error)
      → ingest_prepared db spec commit p d ≡ (err x, d')
      → view d' ≡ view d
  unfolding ingest_prepared
  prepared_raises spec commit p d d' x h =
      let kept = ensure_sensor-Keeps p.mac p.name spec.db_sensor_type d in
      elim (Exec-cases (ensure_sensor db p.mac p.name spec.db_sensor_type d)) [
        | inr (y, d1, failed) ↦ ground (arith, h, failed, kept)
        | inl (s, d1, ensured) ↦
            let same : view d1 ≡ view d = sym (ap (λ r. view r.1) ensured) ∙ kept in
            elim (Exec-cases (execute_reading_upsert db spec commit d p s d1)) [
              | inl (r, d2, executed) ↦ absurd (ground (arith, h, ensured, executed))
              | inr (y, d2, failed) ↦
                  ground
                    (arith, h, ensured, failed, upsert_raises spec commit d p s d1 d2 y same failed)
            ]
      ]

  -- An ingest that raises.
  pub ingest_raises :
      (spec : SensorSpec) (commit : Bool) (reading : ReadingIn) (d d' : D) (x : Error)
      → ingest_reading db spec commit reading d ≡ (err x, d')
      → view d' ≡ view d
  unfolding ingest_reading
  ingest_raises spec commit reading d d' x h = elim (Result-cases (prepare_reading reading)) [
    | inl (p, e) ↦ prepared_raises spec commit p d d' x (ground (arith, h, e))
    | inr (y, e) ↦ ground (arith, h, e)
  ]
