-- ===== src/Ingest/Classify.antt =====
-- The verdict on a reading, against what the database does with it.
use esp32_home_display.Prelude.{
  ◌≡◌, refl, Bool, true, false, not, ◌||◌, Option, none, some, List, [], ◌∷◌, arith, if◌then◌else◌,
}
use esp32_home_display.Text.{Str}
use esp32_home_display.Float.{Float, feq}
use esp32_home_display.Common.{DataField, ReadingIn}
use esp32_home_display.Database.{Row}
use esp32_home_display.Ingest.{
  Warning, IngestResult, duplicate, merged, conflict, merged_with_conflict, fills_null, value_of,
  classify_existing_reading, classify_fields, classify_value, verdict, merge_needed,
}

-- The fields have the values that the row of the reading has under their names: no two fields
-- share a name.
abbrev pub Named : List DataField → List DataField → ReadingIn → Type 0
Named spec [] reading = Unit {0}
Named spec (f ∷ fields) reading =
    (value_of spec reading f.name ≡ f.getter reading) × Named spec fields reading

-- Both are there, and differ: what the loop warns of.
abbrev pub differs : Option Float → Option Float → Bool
differs none new = false
differs (some old) none = false
differs (some old) (some value) = not (feq old value)

-- Some field has an old value and another new one.
abbrev pub conflicts : (Str → Option Float) → ReadingIn → List DataField → Bool
conflicts existing incoming [] = false
conflicts existing incoming (f ∷ fields) =
    differs (existing f.name) (f.getter incoming) || conflicts existing incoming fields

abbrev pub is_nil : List Warning → Bool
is_nil [] = true
is_nil (w ∷ ws) = false

classify_value_lem :
    (name : Str) (old new : Option Float) (acc : List Warning × Bool)
    → let (ws, fills) = classify_value name old new acc in
      (is_nil ws ≡ (if differs old new then false else is_nil acc.0))
      × (fills ≡ (fills_null old new || acc.1))
unfolding classify_value fills_null
classify_value_lem name none none acc = (refl, refl)
classify_value_lem name (some v) none acc = (refl, refl)
classify_value_lem name none (some w) acc = (refl, refl)
classify_value_lem name (some v) (some w) (ws, fills) = ground arith

classify_fields_lem :
    (spec fields : List DataField) (old new : Row) (reading : ReadingIn)
    → ((name : Str) → new.values name ≡ value_of spec reading name)
    → Named spec fields reading
    → let (ws, fills) = classify_fields old.values reading fields in
      (is_nil ws ≡ not (conflicts old.values reading fields))
      × (fills ≡ merge_needed fields old new)
unfolding classify_fields merge_needed
classify_fields_lem spec [] old new reading h n = (refl, refl)
classify_fields_lem spec (f ∷ fields) old new reading h n =
    let acc = classify_fields old.values reading fields in
    let rest = classify_fields_lem spec fields old new reading h n.1 in
    ground (
      arith,
      classify_value_lem f.name (old.values f.name) (f.getter reading) acc,
      rest,
      h f.name,
      n.0,
    )

-- The four verdicts on a reading whose key is taken.
abbrev pub verdict_of : Bool → Bool → IngestResult
verdict_of false false = duplicate
verdict_of false true = conflict
verdict_of true false = merged
verdict_of true true = merged_with_conflict

verdict_lem :
    (acc : List Warning × Bool) → (verdict acc).result ≡ verdict_of acc.1 (not (is_nil acc.0))
unfolding verdict
verdict_lem ([], false) = refl
verdict_lem ([], true) = refl
verdict_lem (w ∷ ws, false) = refl
verdict_lem (w ∷ ws, true) = refl

-- For a reading whose key is taken by `old`, the verdict says whether the database writes (the WHERE
-- clause of the upsert holds for `old` and the new row) and whether a stored value differs from the
-- incoming one. No two fields share a name.
pub classify_exact :
    (fields : List DataField) (old new : Row) (reading : ReadingIn)
    → ((name : Str) → new.values name ≡ value_of fields reading name)
    → Named fields fields reading
    → (classify_existing_reading (some (old.values)) reading fields).result
      ≡ verdict_of (merge_needed fields old new) (conflicts old.values reading fields)
unfolding classify_existing_reading
classify_exact fields old new reading h n =
    let acc = classify_fields old.values reading fields in
    ground (arith, verdict_lem acc, classify_fields_lem fields fields old new reading h n)
