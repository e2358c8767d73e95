-- ===== src/Bulk/Counts.antt =====
-- The counters of a bulk upload account for every item.
use Prim.Native.Nat.{min}
use native.Mathlib.Nat.{add-zero, zero-add}
use esp32_home_display.Prelude.{
  ℕ, suc, ◌+◌, ◌≡◌, Bool, List, [], ◌∷◌, length, length-append, leb, arith, inl, inr, Bool-cases,
  Option,
}
use esp32_home_display.Float.{Float}
use esp32_home_display.Result.{Error}
use esp32_home_display.Result.Laws.{Exec-cases}
use esp32_home_display.Common.{Datetime}
use esp32_home_display.Database.{Sensor, Session}
use esp32_home_display.Ingest.{IngestResult}
use esp32_home_display.Bulk.{
  Code, conflict_code, Failure, BulkOut, add_bulk_error, count_invalid, count_status, count_error,
  start_counts, ingest_raw, bulk_step, bulk_loop, bulk_result_counts,
}

-- The counters after `n` of `received` items: each item has been counted once, as created (also
-- when it was merged), duplicate, conflict or invalid; the error details stop at the limit, and the
-- failed rows do not.
pub record IsTallied (limit received n : ℕ) (r : BulkOut) : Type 0 where
  pub all_received : r.received ≡ received
  pub every_item : r.succeeded + r.invalid ≡ n
  pub every_success : r.created + r.duplicate + r.conflict ≡ r.succeeded
  pub every_failure : length r.failed ≡ r.invalid
  pub details : length r.errors ≡ min limit (r.invalid + r.conflict)

module _ (limit received n index : ℕ) (r : BulkOut) (h : IsTallied limit received n r) where
  add_length :
      (code : Code)
      → length (add_bulk_error limit index code r.errors) ≡ min limit (r.invalid + r.conflict + 1)
  unfolding add_bulk_error
  add_length code = elim (Bool-cases (leb limit (length r.errors))) [
    | inl e ↦ rw e (grind arith)
    | inr e ↦ rw (e, length-append) (grind arith)
  ]

  count_invalid-IsTallied :
      (code : Code) (reason : Failure)
      → IsTallied limit received (n + 1) (count_invalid limit index code reason r)
  unfolding count_invalid
  count_invalid-IsTallied code reason = record {
    all_received = h.all_received;
    every_item = omega arith;
    every_success = h.every_success;
    every_failure = rw length-append (omega arith);
    details = rw (add_length code) (omega arith);
  }

  count_status-IsTallied :
      (status : IngestResult) → IsTallied limit received (n + 1) (count_status limit index status r)
  unfolding count_status
  count_status-IsTallied IngestResult.created = omega arith
  count_status-IsTallied IngestResult.duplicate = omega arith
  count_status-IsTallied IngestResult.merged = omega arith
  count_status-IsTallied IngestResult.conflict = omega (arith, add_length conflict_code)
  count_status-IsTallied IngestResult.merged_with_conflict = omega (arith, add_length conflict_code)

  count_error-IsTallied :
      (e : Error) → IsTallied limit received (n + 1) (count_error limit index e r)
  unfolding count_error
  count_error-IsTallied (Error.integrity_error c) = count_invalid-IsTallied _ _
  count_error-IsTallied _ = count_invalid-IsTallied _ _

module _ {D Raw : Type 0} (db : Session D) (is_object : Raw → Bool)
    (parse : Raw → Option (Datetime × Float × Float)) (limit received : ℕ) (s : Sensor) where
  bulk_step-IsTallied :
      (n index : ℕ) (raw : Raw) (r : BulkOut) (d : D)
      → IsTallied limit received n r
      → IsTallied limit received (n + 1) (bulk_step db is_object parse limit s index raw (r, d)).0
  unfolding bulk_step
  bulk_step-IsTallied n index raw r d h = elim (Bool-cases (is_object raw)) [
    | inr no_object ↦ rw no_object (count_invalid-IsTallied limit received n index r h _ _)
    | inl object ↦ elim (Exec-cases (ingest_raw db is_object parse s raw d)) [
      | inl (c, d', e) ↦ rw (object, e) (count_status-IsTallied limit received n index r h c.result)
      | inr (e, d', raised) ↦
          rw (object, raised) (count_error-IsTallied limit received n index r h e)
    ]
  ]

  bulk_loop-IsTallied :
      (raws : List Raw) (n index : ℕ) (acc : BulkOut × D)
      → IsTallied limit received n acc.0
      → IsTallied limit received
          (n + length raws)
          (bulk_loop db is_object parse limit s index raws acc).0
  unfolding bulk_loop
  bulk_loop-IsTallied [] n index acc h = rw add-zero h
  bulk_loop-IsTallied (raw ∷ raws) n index (r, d) h =
      let rest =
        bulk_loop-IsTallied raws (n + 1) (index + 1)
          (bulk_step db is_object parse limit s index raw (r, d))
          (bulk_step-IsTallied n index raw r d h) in
      rw (one_more n (length raws)) rest
    where
      one_more : (a b : ℕ) → a + suc b ≡ a + 1 + b
      one_more a b = omega arith

-- After a bulk upload of any items each has been counted exactly once: as a success (created or
-- merged, duplicate, conflict) or as invalid. Every invalid item has a failed row, and the error
-- details are one for each invalid or conflicting item up to the limit.
pub bulk_result_counts-IsTallied :
    {D Raw : Type 0} (db : Session D) (is_object : Raw → Bool)
    (parse : Raw → Option (Datetime × Float × Float)) (limit : ℕ) (s : Sensor) (raws : List Raw)
    (d : D)
    → IsTallied limit
        (length raws)
        (length raws)
        (bulk_result_counts db is_object parse limit s raws d).0
unfolding bulk_result_counts
bulk_result_counts-IsTallied db is_object parse limit s raws d =
    let start : IsTallied limit (length raws) 0 (start_counts (length raws)) =
      unfold start_counts in omega arith in
    rw zero-add at (
      bulk_loop-IsTallied db is_object parse limit (length raws) s raws 0 0
        (start_counts (length raws), d) start)
