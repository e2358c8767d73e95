-- ===== src/Sync/Cap.antt =====
-- The number of intervals in one response is bounded, for each sensor and in total, and a cut is
-- announced.
use esp32_home_display.Prelude.{
  ℕ, ◌+◌, ◌-◌, ◌≤◌, ◌≡◌, Bool, false, ◌||◌, List, [], ◌∷◌, length, ltb,
}
use esp32_home_display.Database.{Sensor, Row}
use esp32_home_display.Sync.{
  Interval, SyncState, SensorsOut, Progress, gaps, get_sensor_timestamps, sync_retention,
  sync_timestamps_max,
}

-- The number of intervals in the states, in all.
abbrev pub total : List SyncState → ℕ
total [] = 0
total (s ∷ ss) = length s.sync_intervals + total ss

abbrev pub AllWithin : ℕ → List SyncState → Type 0
AllWithin n [] = Unit {0}
AllWithin n (s ∷ ss) = (length s.sync_intervals ≤ n) × AllWithin n ss

-- The sensor of the state has more intervals, by its rows, than the state gives.
abbrev pub leaves_out : ℕ → ℕ → List Row → SyncState → Bool
leaves_out now gap rows s = ltb (length s.sync_intervals) (
    length (
      gaps gap (get_sensor_timestamps s.sensor_id (now - sync_retention) sync_timestamps_max rows)))

abbrev pub any_left_out : ℕ → ℕ → List Row → List SyncState → Bool
any_left_out now gap rows [] = false
any_left_out now gap rows (s ∷ ss) = leaves_out now gap rows s || any_left_out now gap rows ss

-- Each state's flag says whether it leaves intervals out.
abbrev pub AllFlagged : ℕ → ℕ → List Row → List SyncState → Type 0
AllFlagged now gap rows [] = Unit {0}
AllFlagged now gap rows (s ∷ ss) =
    (s.sync_intervals_capped ≡ leaves_out now gap rows s) × AllFlagged now gap rows ss

pub record IsWithin (now gap per_sensor max_total : ℕ) (rows : List Row) (p : Progress)
    : Type 0 where
  pub in_total : total p.resolved + p.remaining_total ≡ max_total
  pub in_sensor : AllWithin per_sensor p.resolved
  pub flagged : AllFlagged now gap rows p.resolved
  pub announced : p.any_capped ≡ any_left_out now gap rows p.resolved

module _ (now gap per_sensor max_total : ℕ) (rows : List Row) where
  found_for : Sensor → List Interval
  found_for s =
      gaps gap (get_sensor_timestamps s.id (now - sync_retention) sync_timestamps_max rows)

abbrev start_at : ℕ → Progress
start_at max_total = record { resolved = []; remaining_total = max_total; any_capped = false }

abbrev out_of : Progress → SensorsOut
out_of p = record { sensors = p.resolved; capped_warning = p.any_capped }

-- What an answer promises, by the rows that the database holds.
pub record IsAnnounced (now gap per_sensor max_total : ℕ) (rows : List Row) (out : SensorsOut)
    : Type 0 where
  pub in_total : total out.sensors ≤ max_total
  pub in_sensor : AllWithin per_sensor out.sensors
  pub flagged : AllFlagged now gap rows out.sensors
  pub announced : out.capped_warning ≡ any_left_out now gap rows out.sensors
