-- ===== src/Query/Tests.antt =====
-- Queries of a sensor with a reading for every second.
use Prim.Native.Nat.{max}
use esp32_home_display.Prelude.{
  ℕ, ◌+◌, ◌*◌, ◌-◌, ◌≤◌, ◌≡◌, refl, true, not, ◌||◌, none, some, List, [], ◌∷◌, pos, arith, length,
  All,
}
use esp32_home_display.Text.{codes, str_eq, upper}
use esp32_home_display.Common.{
  Datetime, mac_address_re, validate_mac_address, validate_query_timestamp,
}
use esp32_home_display.Database.{Sensor, Row, find_sensor, switchbot_type}
use esp32_home_display.Database.Memory.{Tables, memory_session}
use esp32_home_display.Query.{
  Params, in_window, choose_bucket_seconds, fetch_window_readings, fetch_readings,
}
use esp32_home_display.Query.Page.{IsAsked, fetch_readings-IsAsked}
use esp32_home_display.Query.Order.{IsLatestFirst}
use esp32_home_display.Query.Window.{fetch_window_readings_count}
use esp32_home_display.Query.Latest.{is_represented, fetch_window_readings_latest}

abbrev attic : Sensor
attic = record {
  mac = codes "AA:BB:CC:DD:EE:05";
  id = 2;
  name = codes "Attic";
  type = switchbot_type;
}

abbrev second : ℕ → ℕ
second n = 63_900_000_000_000_000 + n * 1_000_000

abbrev sample_at : ℕ → Row
sample_at n = record { sensor_id = 2; mac = attic.mac; timestamp = second n; values = λ _. none }

abbrev rows : List Row
rows = sample_at 1 ∷ sample_at 0 ∷ sample_at 3 ∷ sample_at 2 ∷ sample_at 4 ∷ []

abbrev tables : Tables
tables = record { sensors = attic ∷ []; readings = rows }

abbrev at : ℕ → Datetime
at n = record { instant = second n; tzinfo = some (pos 0) }

abbrev params : Params
params = record {
  limit = 2;
  before = some (at 3);
  after = none;
  start_ts = none;
  end_ts = none;
  max_points = none;
}

-- Two points are asked for, and three come back.
three_points : length (fetch_window_readings attic.mac (second 0) (second 4) (some 2) rows) ≡ 3
unfolding fetch_window_readings str_eq
three_points = refl

fetch_readings-IsAsked_example :
    All (IsAsked (codes "AA:BB:CC:DD:EE:05") params) (sample_at 3 ∷ sample_at 2 ∷ [])
    × IsLatestFirst (sample_at 3 ∷ sample_at 2 ∷ [])
unfolding fetch_readings upper validate_mac_address mac_address_re validate_query_timestamp
    find_sensor str_eq
fetch_readings-IsAsked_example =
    fetch_readings-IsAsked memory_session (second 10) (codes "aa:bb:cc:dd:ee:05") params
      switchbot_type tables (sample_at 3 ∷ sample_at 2 ∷ []) refl

fetch_window_readings_count_example :
    length (fetch_window_readings attic.mac (second 0) (second 4) (some 2) rows) ≤ 3
fetch_window_readings_count_example =
    fetch_window_readings_count attic.mac (second 0) (second 4) 2 rows (omega arith) (omega arith)

fetch_window_readings_latest_example :
    All
      (λ r.
        (not (in_window attic.mac (second 0) (second 4) r)
          || is_represented
              (choose_bucket_seconds (max 1_000_000 (second 4 - second 0)) 2)
              r
              (fetch_window_readings attic.mac (second 0) (second 4) (some 2) rows))
        ≡ true)
      rows
fetch_window_readings_latest_example =
    fetch_window_readings_latest attic.mac (second 0) (second 4) 2 rows
