-- ===== src/Ingest/Repeat.antt =====
-- A client that sends a reading again, as it does when a response is lost.
use esp32_home_display.Prelude.{
  ℕ, ◌≡◌, refl, ap, ap₂, ◌∙◌, ◌≢◌, Bool, false, Option, none, some, List, [], ◌∷◌, arith,
}
use esp32_home_display.Text.{Str}
use esp32_home_display.Text.Laws.{str_eq_refl}
use esp32_home_display.Float.{Float, nan, feq_refl}
use esp32_home_display.Result.{ok}
use esp32_home_display.Common.{DataField, ReadingIn}
use esp32_home_display.Database.{Session, Sensor, Row, find_row, after_upsert}
use esp32_home_display.Ingest.{
  SensorSpec, Classified, duplicate, fills_null, value_of, row_of, coalesce, get_existing_values,
  report, prepare_reading, ingest_reading, merge_needed, merge_fields,
}
use esp32_home_display.Ingest.Store.{
  Arbitrated, ingest-Accepted, Accepted-finds, Accepted-readings, column, ingest_reading_merges,
}
use esp32_home_display.Ingest.Classify.{Named, conflicts, differs, verdict_of, classify_exact}

-- No field of the reading is not-a-number, which differs from itself.
abbrev pub IsComparable : List DataField → ReadingIn → Type 0
IsComparable [] reading = Unit {0}
IsComparable (f ∷ fields) reading = (f.getter reading ≢ some nan) × IsComparable fields reading

fills_null_self : (v : Option Float) → fills_null v v ≡ false
unfolding fills_null
fills_null_self none = refl
fills_null_self (some v) = refl

merge_not_needed_again : (fields : List DataField) (row : Row) → merge_needed fields row row ≡ false
unfolding merge_needed
merge_not_needed_again [] row = refl
merge_not_needed_again (f ∷ fields) row =
    ground (arith, fills_null_self (row.values f.name), merge_not_needed_again fields row)

differs_self : (v : Option Float) → v ≢ some nan → differs v v ≡ false
differs_self none h = refl
differs_self (some v) h = ground (arith, feq_refl v (λ e. h (ap some e)))

no_conflicts_again :
    (spec fields : List DataField) (reading : ReadingIn)
    → Named spec fields reading
    → IsComparable fields reading
    → conflicts (value_of spec reading) reading fields ≡ false
no_conflicts_again spec [] reading n h = refl
no_conflicts_again spec (f ∷ fields) reading n h =
    rw (n.0, differs_self (f.getter reading) h.0) (no_conflicts_again spec fields reading n.1 h.1)

coalesce_again : (old new : Option Float) → coalesce (coalesce old new) new ≡ coalesce old new
unfolding coalesce
coalesce_again none none = refl
coalesce_again none (some v) = refl
coalesce_again (some v) new = refl

-- A reading that is accepted twice is stored once: the second time changes no column of any row.
pub ingest_again_keeps :
    {D : Type 0} (db : Session D) (spec : SensorSpec) (commit : Bool) (reading p : ReadingIn)
    (d d1 d2 : D) (c1 c2 : Classified) (mac : Str) (timestamp : ℕ) (name : Str)
    → Arbitrated db spec
    → prepare_reading reading ≡ ok p
    → ingest_reading db spec commit reading d ≡ (ok c1, d1)
    → ingest_reading db spec commit reading d1 ≡ (ok c2, d2)
    → column (find_row mac timestamp (db.readings d2)) name
      ≡ column (find_row mac timestamp (db.readings d1)) name
ingest_again_keeps db spec commit reading p d d1 d2 c1 c2 mac timestamp name arb e h1 h2 =
    let once = ingest_reading_merges db spec commit reading p d d1 c1 mac timestamp name arb e h1 in
    let twice =
      ingest_reading_merges db spec commit reading p d1 d2 c2 mac timestamp name arb e h2 in
    let old = column (find_row mac timestamp (db.readings d)) name in
    ground (arith, once, twice, coalesce_again old (value_of spec.data_fields p name))

duplicate_of_stored :
    (fields : List DataField) (reading : ReadingIn) (row : Row) (returned : Option Bool)
    → row.values ≡ value_of fields reading
    → Named fields fields reading
    → IsComparable fields reading
    → (report fields reading (some (row.values)) returned).result ≡ duplicate
unfolding report
duplicate_of_stored fields reading row returned h n numbers =
    let exact =
      classify_exact fields row row reading (λ name. ap (λ (v : Str → Option Float). v name) h) n in
    let same : conflicts row.values reading fields ≡ false =
      rw h (no_conflicts_again fields fields reading n numbers) in
    exact ∙ ap₂ verdict_of (merge_not_needed_again fields row) same

stored_fresh :
    (spec : SensorSpec) (p : ReadingIn) (s : Sensor)
    → after_upsert
        (merge_fields spec.data_fields)
        (merge_needed spec.data_fields)
        (row_of spec s p)
        none
      ≡ row_of spec s p
unfolding after_upsert
stored_fresh spec p s = refl

found_existing :
    {D : Type 0} (db : Session D) (p : ReadingIn) (d : D) (row : Row)
    → find_row p.mac p.timestamp.instant (db.readings d) ≡ some row
    → get_existing_values db p d ≡ some (row.values)
unfolding get_existing_values
found_existing db p d row h = ground arith

-- A reading that was new, and whose values are numbers, is a duplicate the second time.
pub ingest_again_duplicate :
    {D : Type 0} (db : Session D) (spec : SensorSpec) (commit : Bool) (reading p : ReadingIn)
    (d d1 d2 : D) (c1 c2 : Classified)
    → Arbitrated db spec
    → Named spec.data_fields spec.data_fields p
    → IsComparable spec.data_fields p
    → prepare_reading reading ≡ ok p
    → find_row p.mac p.timestamp.instant (db.readings d) ≡ none
    → ingest_reading db spec commit reading d ≡ (ok c1, d1)
    → ingest_reading db spec commit reading d1 ≡ (ok c2, d2)
    → c2.result ≡ duplicate
ingest_again_duplicate db spec commit reading p d d1 d2 c1 c2 arb n numbers e fresh h1 h2 =
    let a1 = ingest-Accepted db spec commit reading p d d1 c1 arb e h1 in
    let a2 = ingest-Accepted db spec commit reading p d1 d2 c2 arb e h2 in
    let row = row_of spec a1.sensor_row p in
    let stored : find_row p.mac p.timestamp.instant (db.readings a2.ready) ≡ some row = ground (
      arith,
      stored_fresh spec p a1.sensor_row,
      str_eq_refl p.mac,
      fresh,
      Accepted-readings db spec a2,
      Accepted-finds db spec a1 p.mac p.timestamp.instant,
    ) in
    let existing : get_existing_values db p a2.ready ≡ some (row.values) =
      found_existing db p a2.ready row stored in
    ap (λ (c : Classified). c.result) a2.reported
    ∙ rw existing
        (duplicate_of_stored spec.data_fields p row a2.returned (unfold row_of in refl) n numbers)
