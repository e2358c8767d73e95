-- ===== src/Sync/Tests.antt =====
-- A sensor with readings every minute and two silences of an hour and more.
use esp32_home_display.Prelude.{All, ℕ, ◌*◌, ◌-◌, ◌≡◌, true, ◌||◌, none, List, [], ◌∷◌, arith}
use esp32_home_display.Text.{codes}
use esp32_home_display.Database.{Sensor, Row, switchbot_type}
use esp32_home_display.Database.Memory.{Tables}
use esp32_home_display.Sync.{SensorIn, SensorsOut, gaps, get_sensor_sync_state, sync_retention}
use esp32_home_display.Sync.Gaps.{is_near, is_inside, gaps_cover}
use esp32_home_display.Sync.Silence.{IsSilence, sync_intervals-IsSilence}

abbrev minute : ℕ
minute = 60_000_000

abbrev hall : Sensor
hall = record {
  mac = codes "AA:BB:CC:DD:EE:03";
  id = 4;
  name = codes "Hall";
  type = switchbot_type;
}

abbrev sample_at : ℕ → Row
sample_at t = record { sensor_id = 4; mac = hall.mac; timestamp = t * minute; values = λ _. none }

abbrev rows : List Row
rows = sample_at 200 ∷ sample_at 10 ∷ sample_at 11 ∷ sample_at 90 ∷ []

abbrev tables : Tables
tables = record { sensors = hall ∷ []; readings = rows }

abbrev request : List SensorIn
request = record { mac = codes "aa:bb:cc:dd:ee:03"; name = none } ∷ []

gaps_cover_example :
    (is_near 30 50 (10 ∷ 11 ∷ 90 ∷ []) || is_inside 50 (gaps 30 (10 ∷ 11 ∷ 90 ∷ []))) ≡ true
gaps_cover_example = gaps_cover 30 50 10 (11 ∷ 90 ∷ []) (omega arith) (omega arith)

sync_intervals-IsSilence_example :
    All
      (IsSilence (30 * minute) 4 (5 * minute - sync_retention) rows)
      (get_sensor_sync_state (5 * minute) (30 * minute) 1 hall rows).sync_intervals
sync_intervals-IsSilence_example = sync_intervals-IsSilence (5 * minute) (30 * minute) 1 hall rows

abbrev answer : SensorsOut
answer = record {
  sensors = get_sensor_sync_state (300 * minute) (30 * minute) 1 hall rows ∷ [];
  capped_warning = true;
}
