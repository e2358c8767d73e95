-- ===== src/Query/Latest.antt =====
-- What a window that is thinned out leaves out: older readings of the same bucket.
use Prim.Native.Nat.{max}
use esp32_home_display.Prelude.{
  is_one_of, ◌-◌, ◌||◌, ◌==◌, ℕ, ◌≤◌, ◌≡◌, refl, ap, All-mono2, inl, inr, Bool, true, false, ◌&&◌,
  not, some, List, [], ◌∷◌, leb, arith, Bool-cases, All, All-mono, ==_iff,
}
use esp32_home_display.Text.{Str}
use esp32_home_display.Database.{Row}
use esp32_home_display.Query.{
  latest_first, insert_latest, select, in_window, bucket_of, first_of_buckets,
  choose_bucket_seconds, fetch_window_readings,
}
use esp32_home_display.Query.Order.{IsLatestFirst, latest_first-IsLatestFirst}

-- A reading of the same bucket that is at least as new is among the rows.
abbrev pub is_represented : ℕ → Row → List Row → Bool
is_represented b r [] = false
is_represented b r (q ∷ qs) =
    (bucket_of b q.timestamp == bucket_of b r.timestamp && leb r.timestamp q.timestamp)
    || is_represented b r qs

still_seen :
    (bucket n : ℕ) (seen : List ℕ) (later : Bool)
    → is_one_of bucket seen ≡ true
    → (is_one_of n (bucket ∷ seen) || later) ≡ true
    → (is_one_of n seen || later) ≡ true
still_seen bucket n seen later e k = elim (Bool-cases (bucket == n)) [
  | inl same ↦ ground (arith, ap (λ x. is_one_of x seen) ((==_iff bucket n).0 same))
  | inr other ↦ ground arith
]

now_seen :
    (bucket n old new : ℕ) (seen : List ℕ) (later : Bool)
    → old ≤ new
    → (is_one_of n (bucket ∷ seen) || later) ≡ true
    → (is_one_of n seen || ((bucket == n && leb old new) || later)) ≡ true
now_seen bucket n old new seen later le k = elim (Bool-cases (is_one_of n seen)) [
  | inl e ↦ ground arith
  | inr e ↦ ground arith
]

All-insert_latest_back :
    (P : Row → Type 0) (r : Row) (rs : List Row) → All P (insert_latest r rs) → P r × All P rs
unfolding insert_latest
All-insert_latest_back P r [] a = a
All-insert_latest_back P r (q ∷ rs) a = elim (Bool-cases (leb q.timestamp r.timestamp)) [
  | inl e ↦ rw e at a
  | inr e ↦ let b = rw e at a in let c = All-insert_latest_back P r rs b.1 in (c.0, (b.0, c.1))
]

All-latest_first_back : (P : Row → Type 0) (rs : List Row) → All P (latest_first rs) → All P rs
unfolding latest_first
All-latest_first_back P [] a = tt
All-latest_first_back P (r ∷ rs) a =
    let b = All-insert_latest_back P r (latest_first rs) a in (b.0, All-latest_first_back P rs b.1)

All-select_back :
    (test good : Row → Bool) (rs : List Row)
    → All (λ r. good r ≡ true) (select test rs)
    → All (λ r. (not (test r) || good r) ≡ true) rs
All-select_back test good [] a = tt
All-select_back test good (r ∷ rs) a = elim (Bool-cases (test r)) [
  | inl e ↦ let b = rw e at a in (ground (arith, b.0), All-select_back test good rs b.1)
  | inr e ↦ (ground arith, All-select_back test good rs (rw e at a))
]

module _ (b : ℕ) where
  -- The bucket was taken before, or one of the rows that are left represents the reading.
  represent :
      (seen : List ℕ) (rows : List Row)
      → IsLatestFirst rows
      → All
          (λ r.
            (is_one_of (bucket_of b r.timestamp) seen
              || is_represented b r (first_of_buckets b seen rows))
            ≡ true)
          rows
  unfolding first_of_buckets
  represent seen [] h = tt
  represent seen (q ∷ rows) h =
      let bucket = bucket_of b q.timestamp in
      let rest = represent (bucket ∷ seen) rows h.1 in
      elim (Bool-cases (is_one_of bucket seen)) [
        | inl e ↦ (
          rw e refl,
          All-mono
              (λ r.
                (is_one_of (bucket_of b r.timestamp) (bucket ∷ seen)
                  || is_represented b r (first_of_buckets b (bucket ∷ seen) rows))
                ≡ true)
              (λ r.
                (is_one_of (bucket_of b r.timestamp) seen
                  || is_represented b r (first_of_buckets b seen (q ∷ rows)))
                ≡ true)
              (λ r k. rw e (
                still_seen bucket (bucket_of b r.timestamp) seen
                  (is_represented b r (first_of_buckets b (bucket ∷ seen) rows)) e k))
              rows rest,
        )
        | inr e ↦ (
          rw e (ground arith),
          All-mono2
              (λ r.
                (is_one_of (bucket_of b r.timestamp) (bucket ∷ seen)
                  || is_represented b r (first_of_buckets b (bucket ∷ seen) rows))
                ≡ true)
              (λ r. r.timestamp ≤ q.timestamp)
              (λ r.
                (is_one_of (bucket_of b r.timestamp) seen
                  || is_represented b r (first_of_buckets b seen (q ∷ rows)))
                ≡ true)
              (λ r k le. rw e (
                now_seen bucket (bucket_of b r.timestamp) r.timestamp q.timestamp seen
                  (is_represented b r (first_of_buckets b (bucket ∷ seen) rows)) le k))
              rows rest h.0,
        )
      ]

-- In a window that is thinned out, each stored reading of the sensor that lies in the window is
-- either returned or stands back for a returned one of its bucket that is at least as new.
pub fetch_window_readings_latest :
    (mac : Str) (start_ts end_ts max_points : ℕ) (rows : List Row)
    → All
        (λ r.
          (not (in_window mac start_ts end_ts r)
            || is_represented
                (choose_bucket_seconds (max 1_000_000 (end_ts - start_ts)) max_points)
                r
                (fetch_window_readings mac start_ts end_ts (some max_points) rows))
          ≡ true)
        rows
unfolding fetch_window_readings
fetch_window_readings_latest mac start_ts end_ts n rows =
    let b = choose_bucket_seconds (max 1_000_000 (end_ts - start_ts)) n in
    let test = in_window mac start_ts end_ts in
    let found = latest_first (select test rows) in
    All-select_back test (λ r. is_represented b r (first_of_buckets b [] found)) rows
      (All-latest_first_back (λ r. is_represented b r (first_of_buckets b [] found) ≡ true)
        (select test rows) (represent b [] found (latest_first-IsLatestFirst (select test rows))))
