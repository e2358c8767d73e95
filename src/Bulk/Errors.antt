-- ===== src/Bulk/Errors.antt =====
-- Items that fail leave no trace in the database.
use esp32_home_display.Prelude.{
  ℕ, ◌+◌, ◌≡◌, refl, ap, ◌∙◌, Bool, true, false, ◌&&◌, List, [], ◌∷◌, arith, inl, inr, Bool-cases,
  Option, if◌then◌else◌,
}
use esp32_home_display.Float.{Float}
use esp32_home_display.Result.{Result, ok, err}
use esp32_home_display.Result.Laws.{Exec-cases}
use esp32_home_display.Common.{Datetime}
use esp32_home_display.Database.{Sensor, Session}
use esp32_home_display.Bulk.{BulkOut, ingest_raw, bulk_step, bulk_loop, bulk_result_counts}

abbrev pub returned {ℓ} : {A : Type ℓ} → Result A → Bool
returned (ok a) = true
returned (err e) = false

module _ {D Raw : Type 0} (db : Session D) (is_object : Raw → Bool)
    (parse : Raw → Option (Datetime × Float × Float)) (s : Sensor) where
  -- The item is an object, and the body of the `try` does not raise on it.
  abbrev pub accepts : Raw → D → Bool
  accepts raw d = is_object raw && returned (ingest_raw db is_object parse s raw d).0

  -- The items that are accepted where they come.
  pub accepted : List Raw → D → List Raw
  accepted [] d = []
  accepted (raw ∷ raws) d =
      let rest = accepted raws d in
      let others = raw ∷ accepted raws (ingest_raw db is_object parse s raw d).1 in
      if accepts raw d then others else rest

  step_fails :
      (limit index : ℕ) (raw : Raw) (r : BulkOut) (d : D)
      → accepts raw d ≡ false
      → (bulk_step db is_object parse limit s index raw (r, d)).1 ≡ d
  unfolding bulk_step
  step_fails limit index raw r d h = elim (Exec-cases (ingest_raw db is_object parse s raw d)) [
    | inl (c, d', e) ↦ ground arith
    | inr (e, d', raised) ↦ ground arith
  ]

  step_succeeds :
      (limit index : ℕ) (raw : Raw) (r : BulkOut) (d : D)
      → accepts raw d ≡ true
      → (bulk_step db is_object parse limit s index raw (r, d)).1
        ≡ (ingest_raw db is_object parse s raw d).1
  unfolding bulk_step
  step_succeeds limit index raw r d h = elim (Exec-cases (ingest_raw db is_object parse s raw d)) [
    | inl (c, d', e) ↦ ground arith
    | inr (e, d', raised) ↦ ground arith
  ]

  -- The database alone, without the counters.
  pub ingest_all : List Raw → D → D
  ingest_all [] d = d
  ingest_all (raw ∷ raws) d = ingest_all raws (ingest_raw db is_object parse s raw d).1

  loop_database :
      (limit index : ℕ) (raws : List Raw) (r : BulkOut) (d : D)
      → (bulk_loop db is_object parse limit s index raws (r, d)).1 ≡ ingest_all (accepted raws d) d
  unfolding bulk_loop accepted ingest_all
  loop_database limit index [] r d = refl
  loop_database limit index (raw ∷ raws) r d =
      let (r', d') = bulk_step db is_object parse limit s index raw (r, d) in
      let rest = loop_database limit (index + 1) raws r' d' in
      elim (Bool-cases (accepts raw d)) [
        | inl e ↦ rest ∙ rw (step_succeeds limit index raw r d e, e)
        | inr e ↦ rest ∙ rw (step_fails limit index raw r d e, e)
      ]

-- A bulk upload commits the database that ingesting only its accepted items, in order, leaves: the
-- savepoints undo whatever an item had written before it failed, and no item's failure stops
-- another.
pub bulk_database :
    {D Raw : Type 0} (db : Session D) (is_object : Raw → Bool)
    (parse : Raw → Option (Datetime × Float × Float)) (s : Sensor) (limit : ℕ) (raws : List Raw)
    (d : D)
    → (bulk_result_counts db is_object parse limit s raws d).1
      ≡ db.commit (ingest_all db is_object parse s (accepted db is_object parse s raws d) d)
unfolding bulk_result_counts
bulk_database db is_object parse s limit raws d =
    ap db.commit (loop_database db is_object parse s limit 0 raws _ d)
