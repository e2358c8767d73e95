-- ===== src/Sync/Silence.antt =====
-- The intervals of a sensor, against the sensor's rows.
use esp32_home_display.Prelude.{
  All, All-mono, All-drop, ℕ, zero, suc, ◌+◌, ◌-◌, ◌≤◌, ◌≡◌, ◌⊎◌, Bool, true, false, ◌||◌, ◌&&◌,
  List, [], ◌∷◌, length, drop, ltb, leb, arith, inl, inr, ◌==◌, Bool-cases,
}
use esp32_home_display.Database.{Row, Sensor}
use esp32_home_display.Sync.{
  Interval, sorted, sorted_insert, gaps, cap_intervals, get_sensor_timestamps,
  get_sensor_sync_state, select_timestamps, sync_retention, sync_timestamps_max,
}
use esp32_home_display.Sync.Gaps.{
  IsSorted, sorted-IsSorted, All-sorted_insert, IsGap, gaps_after, extend_gaps, gaps-IsGap,
}

-- A row of the sensor was taken at `t`, which is not before `after`.
abbrev pub is_reading : ℕ → ℕ → List Row → ℕ → Bool
is_reading id after [] t = false
is_reading id after (row ∷ rows) t =
    (row.sensor_id == id && (leb after row.timestamp && row.timestamp == t))
    || is_reading id after rows t

-- A row of the sensor was taken strictly inside the interval.
abbrev pub is_broken_by : ℕ → Interval → Row → Bool
is_broken_by id i row =
    row.sensor_id == id && (ltb i.start row.timestamp && ltb row.timestamp i.end)

-- The interval is at least as long as the threshold, it starts and ends with readings of the sensor
-- that are not before `after`, and no row of the sensor lies inside it.
pub record IsSilence (gap_threshold id after : ℕ) (rows : List Row) (i : Interval) : Type 0 where
  pub long : i.start + gap_threshold ≤ i.end
  pub starts : is_reading id after rows i.start ≡ true
  pub ends : is_reading id after rows i.end ≡ true
  pub unbroken : All (λ row. is_broken_by id i row ≡ false) rows

All-sorted : (P : ℕ → Type 0) (xs : List ℕ) → All P xs → All P (sorted xs)
unfolding sorted
All-sorted P [] a = tt
All-sorted P (x ∷ xs) a = All-sorted_insert P x (sorted xs) a.0 (All-sorted P xs a.1)

All-inserted : (P : ℕ → Type 0) (x : ℕ) (ys : List ℕ) → All P (sorted_insert x ys) → P x × All P ys
unfolding sorted_insert
All-inserted P x [] a = a
All-inserted P x (y ∷ ys) a = elim (Bool-cases (leb x y)) [
  | inl e ↦ rw e at a
  | inr e ↦
      let b : P y × All P (sorted_insert x ys) = rw e at a in
      let (p, rest) = All-inserted P x ys b.1 in (p, (b.0, rest))
]

All-unsorted : (P : ℕ → Type 0) (xs : List ℕ) → All P (sorted xs) → All P xs
unfolding sorted
All-unsorted P [] a = tt
All-unsorted P (x ∷ xs) a =
    let (p, rest) = All-inserted P x (sorted xs) a in (p, All-unsorted P xs rest)

module _ (gap : ℕ) where
  -- The timestamps that were dropped are before the interval, too.
  gaps_dropped : (n : ℕ) (ts : List ℕ) → IsSorted ts → All (IsGap gap ts) (gaps gap (drop n ts))
  gaps_dropped zero ts h = gaps-IsGap gap ts h
  gaps_dropped (suc n) [] h = unfold gaps in tt
  gaps_dropped (suc n) (t ∷ ts) h =
      extend_gaps gap t ts (gaps gap (drop n ts))
        (gaps_after gap t (drop n ts) (All-drop (λ u. t ≤ u) n ts h.0)) (gaps_dropped n ts h.1)

  gaps_between :
      (P : ℕ → Type 0) (ts : List ℕ) → All P ts → All (λ i. P i.start × P i.end) (gaps gap ts)
  unfolding gaps
  gaps_between P [] a = tt
  gaps_between P (t ∷ []) a = tt
  gaps_between P (t ∷ u ∷ ts) a =
      let later = gaps_between P (u ∷ ts) a.1 in ground (arith, later, a.0, a.1.0)

select_timestamps-All :
    (P : ℕ → Type 0) (id after : ℕ) (row : Row) (rows : List Row)
    → (row.sensor_id == id ≡ true → leb after row.timestamp ≡ true → P row.timestamp)
    → All P (select_timestamps id after rows)
    → All P (select_timestamps id after (row ∷ rows))
unfolding select_timestamps
select_timestamps-All P id after row rows h a = elim (Bool-cases (row.sensor_id == id)) [
  | inr e ↦ rw e a
  | inl e ↦ elim (Bool-cases (leb after row.timestamp)) [
    | inr f ↦ rw (e, f) a
    | inl f ↦ rw (e, f) (h e f, a)
  ]
]

select_timestamps-is_reading :
    (id after : ℕ) (rows : List Row)
    → All (λ t. is_reading id after rows t ≡ true) (select_timestamps id after rows)
select_timestamps-is_reading id after [] = unfold select_timestamps in tt
select_timestamps-is_reading id after (row ∷ rows) =
    select_timestamps-All (λ t. is_reading id after (row ∷ rows) t ≡ true) id after row rows
      (λ e f. ground arith)
      (All-mono (λ t. is_reading id after rows t ≡ true)
        (λ t. is_reading id after (row ∷ rows) t ≡ true) (λ t h. ground (arith, h))
        (select_timestamps id after rows) (select_timestamps-is_reading id after rows))

unbroken_of_selected :
    (id after : ℕ) (i : Interval) (rows : List Row)
    → after ≤ i.start
    → All (λ t. (t ≤ i.start) ⊎ (i.end ≤ t)) (select_timestamps id after rows)
    → All (λ row. is_broken_by id i row ≡ false) rows
unfolding select_timestamps
unbroken_of_selected id after i [] h a = tt
unbroken_of_selected id after i (row ∷ rows) h a = elim (Bool-cases (row.sensor_id == id)) [
  | inr e ↦ (ground arith, unbroken_of_selected id after i rows h (rw e at a))
  | inl e ↦ elim (Bool-cases (leb after row.timestamp)) [
    | inr f ↦ (ground arith, unbroken_of_selected id after i rows h (rw (e, f) at a))
    | inl f ↦
        let b : ((row.timestamp ≤ i.start) ⊎ (i.end ≤ row.timestamp))
            × All (λ t. (t ≤ i.start) ⊎ (i.end ≤ t)) (select_timestamps id after rows) =
          rw (e, f) at a in
        (ground (arith, b.0), unbroken_of_selected id after i rows h b.1)
  ]
]

after_of_is_reading :
    (id after : ℕ) (rows : List Row) (t : ℕ) → is_reading id after rows t ≡ true → after ≤ t
after_of_is_reading id after [] t h = absurd (ground arith)
after_of_is_reading id after (row ∷ rows) t h =
    ground (arith, h, after_of_is_reading id after rows t)

module _ (gap limit id after : ℕ) (rows : List Row) where
  silences :
      (is : List Interval)
      → All (IsGap gap (sorted (select_timestamps id after rows))) is
      → All
          (λ i. (is_reading id after rows i.start ≡ true) × (is_reading id after rows i.end ≡ true))
          is
      → All (IsSilence gap id after rows) is
  silences [] a b = tt
  silences (i ∷ is) a b = (
    record {
      long = a.0.0;
      starts = b.0.0;
      ends = b.0.1;
      unbroken =
          unbroken_of_selected id after i rows (after_of_is_reading id after rows i.start b.0.0) (
            All-unsorted (λ t. (t ≤ i.start) ⊎ (i.end ≤ t)) (select_timestamps id after rows)
              a.0.1);
    },
    silences is a.1 b.1,
  )

  gaps-IsSilence :
      All (IsSilence gap id after rows) (gaps gap (get_sensor_timestamps id after limit rows))
  unfolding get_sensor_timestamps
  gaps-IsSilence =
      let found = select_timestamps id after rows in
      let reading : ℕ → Type 0 = λ t. is_reading id after rows t ≡ true in
      let skipped = length (sorted found) - limit in
      silences (gaps gap (drop skipped (sorted found)))
        (gaps_dropped gap skipped (sorted found) (sorted-IsSorted found))
        (gaps_between gap reading (drop skipped (sorted found)) (
          All-drop reading skipped (sorted found)
            (All-sorted reading found (select_timestamps-is_reading id after rows))))

cap_intervals-All :
    (P : Interval → Type 0) (n : ℕ) (is : List Interval) → All P is → All P (cap_intervals n is).0
unfolding cap_intervals
cap_intervals-All P n is h = elim (Bool-cases (ltb n (length is))) [
  | inl e ↦ rw e (All-drop P (length is - n) is h)
  | inr e ↦ rw e h
]

-- Every interval that is returned for a sensor lasts at least the threshold, starts and ends with
-- readings of that sensor that are within the retention, and none of the sensor's rows, whether it
-- was looked at or not, lies inside it.
pub sync_intervals-IsSilence :
    (now gap_threshold max_intervals : ℕ) (s : Sensor) (rows : List Row)
    → All
        (IsSilence gap_threshold s.id (now - sync_retention) rows)
        (get_sensor_sync_state now gap_threshold max_intervals s rows).sync_intervals
unfolding get_sensor_sync_state
sync_intervals-IsSilence now gap_threshold max_intervals s rows =
    let after = now - sync_retention in
    cap_intervals-All (IsSilence gap_threshold s.id after rows) max_intervals
      (gaps gap_threshold (get_sensor_timestamps s.id after sync_timestamps_max rows))
      (gaps-IsSilence gap_threshold sync_timestamps_max s.id after rows)
