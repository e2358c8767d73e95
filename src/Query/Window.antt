-- ===== src/Query/Window.antt =====
-- How a window is thinned out to one reading for each bucket of time.
use Prim.Native.Nat.{max}
use native.Mathlib.Nat.{
  div-mul-le_self, le-div_iff_mul-le, lt-div-mul-add, add-mul-div_right, mul-le-mul_right,
}
use esp32_home_display.Prelude.{
  is_one_of, ◌-◌, ◌+◌, ◌*◌, ◌/◌, ◌<◌, ◌==◌, length, ℕ, zero, suc, ◌≤◌, ◌≡◌, inl, inr, true, false,
  some, List, [], ◌∷◌, arith, Bool-cases, All, All-mono,
}
use esp32_home_display.Text.{Str}
use esp32_home_display.Database.{Row}
use esp32_home_display.Query.{
  latest_first, select, in_window, bucket_of, first_of_buckets, choose_bucket_seconds,
  fetch_window_readings,
}
use esp32_home_display.Query.Order.{
  IsLatestFirst, latest_first-IsLatestFirst, All-latest_first, All-select,
}

div_mono : (a b k : ℕ) → zero < k → a ≤ b → a / k ≤ b / k
div_mono a b k h le = (le-div_iff_mul-le h).1 (omega (arith, div-mul-le_self a k, le))

div_step : (a b n k : ℕ) → zero < k → b ≤ a + n * k → b / k ≤ a / k + n
div_step a b n k h le = omega (arith, div_mono b (a + n * k) k h le, add-mul-div_right a n h)

-- Buckets are large enough for the window to hold no more than `max_points` of them end to end.
choose_bucket_seconds_covers :
    (window max_points : ℕ)
    → 1 ≤ max_points
    → window ≤ max_points * (choose_bucket_seconds window max_points * 1_000_000)
unfolding choose_bucket_seconds
choose_bucket_seconds_covers window n h =
    let unit = n * 1_000_000 in
    let q = (window + unit - 1) / unit in
    let enough : window ≤ q * unit =
      omega (arith, lt-div-mul-add {a = window + unit - 1} {b = unit} (omega arith)) in
    let larger : q * unit ≤ max 1 q * unit = mul-le-mul_right unit (omega arith) in
    omega (arith, swap n (max 1 q) 1_000_000, enough, larger)
  where
    swap : (a c k : ℕ) → a * (c * k) ≡ c * (a * k)
    swap a c k = grind arith

choose_bucket_seconds_pos : (window max_points : ℕ) → 1 ≤ choose_bucket_seconds window max_points
unfolding choose_bucket_seconds
choose_bucket_seconds_pos window n = omega arith

-- The last bucket of a window is at most `max_points` after its first one.
bucket_of_span :
    (b s t n : ℕ) → 1 ≤ b → t - s ≤ n * (b * 1_000_000) → bucket_of b t ≤ bucket_of b s + n
unfolding bucket_of
bucket_of_span b s t n h le =
    div_step (s - 719_162 * 86_400 * 1_000_000) (t - 719_162 * 86_400 * 1_000_000) n (b * 1_000_000)
      (omega arith) (omega (arith, le))

bucket_of_mono : (b s t : ℕ) → 1 ≤ b → s ≤ t → bucket_of b s ≤ bucket_of b t
unfolding bucket_of
bucket_of_mono b s t h le =
    div_mono (s - 719_162 * 86_400 * 1_000_000) (t - 719_162 * 86_400 * 1_000_000) (b * 1_000_000)
      (omega arith) (omega arith)

is_one_of_head : (n : ℕ) (ms : List ℕ) → is_one_of n (n ∷ ms) ≡ true
is_one_of_head n ms = ground arith

below_taken :
    (n hi : ℕ) (seen : List ℕ)
    → n ≤ hi
    → is_one_of hi seen ≡ true
    → is_one_of n seen ≡ false
    → n < hi
below_taken n hi seen le e f = elim (Bool-cases (n == hi)) [
  | inl k ↦ absurd (ground arith)
  | inr k ↦ ground arith
]

module _ (b lo : ℕ) (pos_b : 1 ≤ b) where
  -- With the bucket `hi` taken and no row after it, one row is left for each bucket below it.
  count_below :
      (hi : ℕ) (seen : List ℕ) (rows : List Row)
      → is_one_of hi seen ≡ true
      → All (λ r. bucket_of b r.timestamp ≤ hi) rows
      → All (λ r. lo ≤ bucket_of b r.timestamp) rows
      → IsLatestFirst rows
      → length (first_of_buckets b seen rows) ≤ hi - lo
  unfolding first_of_buckets
  count_below hi seen [] taken high low h = omega arith
  count_below hi seen (r ∷ rows) taken high low h =
      let bucket = bucket_of b r.timestamp in
      let below =
        All-mono (λ q. q.timestamp ≤ r.timestamp) (λ q. bucket_of b q.timestamp ≤ bucket)
          (λ q k. bucket_of_mono b q.timestamp r.timestamp pos_b k) rows h.0 in
      let rest =
        count_below bucket (bucket ∷ seen) rows (is_one_of_head bucket seen) below low.1 h.1 in
      elim (Bool-cases (is_one_of bucket seen)) [
        | inl e ↦ rw e (omega (arith, rest, high.0))
        | inr e ↦ rw e (omega (arith, rest, low.0, below_taken bucket hi seen high.0 taken e))
      ]

  -- All the rows of a window, from the newest: one row for each bucket from `lo` to `hi`.
  count_window :
      (hi : ℕ) (rows : List Row)
      → All (λ r. bucket_of b r.timestamp ≤ hi) rows
      → All (λ r. lo ≤ bucket_of b r.timestamp) rows
      → IsLatestFirst rows
      → length (first_of_buckets b [] rows) ≤ suc hi - lo
  unfolding first_of_buckets
  count_window hi [] high low h = omega arith
  count_window hi (r ∷ rows) high low h =
      let bucket = bucket_of b r.timestamp in
      let below =
        All-mono (λ q. q.timestamp ≤ r.timestamp) (λ q. bucket_of b q.timestamp ≤ bucket)
          (λ q k. bucket_of_mono b q.timestamp r.timestamp pos_b k) rows h.0 in
      omega (
        arith,
        count_below bucket (bucket ∷ []) rows (is_one_of_head bucket []) below low.1 h.1,
        high.0,
        low.0,
      )

-- A window that is thinned out holds at most one reading more than `max_points`, at most one for
-- each bucket.
pub fetch_window_readings_count :
    (mac : Str) (start_ts end_ts max_points : ℕ) (rows : List Row)
    → 1 ≤ max_points
    → start_ts ≤ end_ts
    → length (fetch_window_readings mac start_ts end_ts (some max_points) rows) ≤ suc max_points
unfolding fetch_window_readings
fetch_window_readings_count mac start_ts end_ts n rows h le =
    let span = max 1_000_000 (end_ts - start_ts) in
    let b = choose_bucket_seconds span n in
    let pos_b = choose_bucket_seconds_pos span n in
    let found = latest_first (select (in_window mac start_ts end_ts) rows) in
    let inside =
      All-latest_first (λ r. in_window mac start_ts end_ts r ≡ true)
        (select (in_window mac start_ts end_ts) rows)
        (All-select (in_window mac start_ts end_ts) rows) in
    let high =
      All-mono (λ r. in_window mac start_ts end_ts r ≡ true)
        (λ r. bucket_of b r.timestamp ≤ bucket_of b end_ts)
        (λ r k. bucket_of_mono b r.timestamp end_ts pos_b (ground arith)) found inside in
    let low =
      All-mono (λ r. in_window mac start_ts end_ts r ≡ true)
        (λ r. bucket_of b start_ts ≤ bucket_of b r.timestamp)
        (λ r k. bucket_of_mono b start_ts r.timestamp pos_b (ground arith)) found inside in
    omega (
      arith,
      count_window b (bucket_of b start_ts) pos_b (bucket_of b end_ts) found high low
          (latest_first-IsLatestFirst (select (in_window mac start_ts end_ts) rows)),
      bucket_of_span b start_ts end_ts n pos_b
          (omega (arith, choose_bucket_seconds_covers span n h)),
    )
