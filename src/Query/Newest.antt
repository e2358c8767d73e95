-- ===== src/Query/Newest.antt =====
-- server/app/service.py: `fetch_latest_readings`, the newest row of each sensor.
use esp32_home_display.Prelude.{
  ℕ, Bool, true, Option, none, some, List, [], ◌∷◌, if◌then◌else◌, is_one_of,
}
use esp32_home_display.Database.{Row}
use esp32_home_display.Query.{select, latest_first}

-- `if sensor_ids`: an empty list asks for all.
unfoldable pub among : Option (List ℕ) → Row → Bool
among none row = true
among (some []) row = true
among (some (id ∷ ids)) row = is_one_of row.sensor_id (id ∷ ids)

-- `row_number() over (partition by sensor_id order by timestamp desc) = 1`, on rows in that order
unfoldable pub first_of_sensors : List ℕ → List Row → List Row
first_of_sensors seen [] = []
first_of_sensors seen (row ∷ rows) =
    let rest = first_of_sensors (row.sensor_id ∷ seen) rows in
    if is_one_of row.sensor_id seen then rest else row ∷ rest

unfoldable pub fetch_latest_readings : Option (List ℕ) → List Row → List Row
unfolding among first_of_sensors latest_first
fetch_latest_readings sensor_ids rows =
    first_of_sensors [] (latest_first (select (among sensor_ids) rows))
