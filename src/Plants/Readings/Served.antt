-- ===== src/Plants/Readings/Served.antt =====
-- What the two readers answer when the request succeeds.
use esp32_home_display.Prelude.{ℕ, ◌≡◌, refl, false, ◌&&◌, ◌||◌, Option, some, List, ◌++◌}
use esp32_home_display.Text.{Str, codes}
use esp32_home_display.Common.{Datetime}
use esp32_home_display.Plants.{slug_for_mac}
use esp32_home_display.Plants.Readings.{
  is_aware, is_naive, any_of, ProxyConfig, ProxyRequest, MonitorRow, PlantReadingOut, get_request,
  map_reading, meter_reading, collect, sort_desc, sorted_if_all, fetch_with, fetch_plant_readings,
  fetch_meter_readings,
}
use esp32_home_display.Plants.Readings.Sorted.{
  NewestFirst, at_key, sort_desc-NewestFirst, at_key-sort_desc,
}
use esp32_home_display.Plants.Readings.Rows.{
  collect-AllShown, map_reading-ShowsPlant, is_absent-sorted_if_all, map_reading_stamp,
  meter_reading_stamp, any_failing-any_of, map_reading-is_no_plant_row,
  meter_reading-is_no_meter_row, is_absent, ShowsPlant, AllShown, mixes_times, is_no_plant_row,
  is_no_meter_row,
}

-- The request for the readings of a slug.
abbrev pub readings_request : ProxyConfig → Str → Datetime → Datetime → Option ℕ → ProxyRequest
readings_request config slug start_ts end_ts max_points =
    get_request config (codes "/sensors/" ++ (slug ++ codes "/readings"))
      (record { start_ts = start_ts; end_ts = end_ts; max_points = max_points })

module _ (get : ProxyRequest → Option (List MonitorRow)) (config : ProxyConfig) (mac slug : Str)
    (start_ts end_ts : Datetime) (max_points : Option ℕ) (rows : List MonitorRow)
    (known : slug_for_mac config.plant_monitor_sensors mac ≡ some slug)
    (answered : get (readings_request config slug start_ts end_ts max_points) ≡ some rows) where
  fetch_with-rows :
      {A : Type 0} (f : MonitorRow → Option A) (stamp : A → Datetime)
      → fetch_with f stamp get config mac (some start_ts) (some end_ts) max_points
        ≡ sorted_if_all stamp (collect f rows)
  unfolding fetch_with
  fetch_with-rows f stamp = rw (fetch_with, known, answered) refl

  -- Where the sensor has a slug and the monitor answers the request for a window with rows that all
  -- have a time and values of their types, either all with a time zone or all without one,
  -- `fetch_plant_readings` answers, with the readings of these rows, newest first, and those of one
  -- time in the monitor's order.
  pub fetch_plant_readings-NewestFirst :
      (readings : List PlantReadingOut)
      → AllShown ShowsPlant rows readings
      → (any_of (λ r. is_aware r.timestamp) readings && any_of (λ r. is_naive r.timestamp) readings)
        ≡ false
      → (out : List PlantReadingOut) × (fetch_plant_readings get config mac
            (some start_ts)
            (some end_ts)
            max_points
          ≡ some out)
        × NewestFirst (λ r. r.timestamp.instant) out
        × ((t : ℕ)
            → at_key (λ r. r.timestamp.instant) t out
              ≡ at_key (λ r. r.timestamp.instant) t readings)
  unfolding fetch_plant_readings sorted_if_all
  fetch_plant_readings-NewestFirst readings shown alike =
      let all =
        collect-AllShown map_reading ShowsPlant map_reading-ShowsPlant rows readings shown in
      (
        sort_desc (λ r. r.timestamp.instant) readings,
        rw (fetch_with-rows map_reading (λ r. r.timestamp), all, alike) refl,
        sort_desc-NewestFirst (λ r. r.timestamp.instant) readings,
        λ t. at_key-sort_desc (λ r. r.timestamp.instant) t readings,
      )

  -- Where the sensor has a slug and the monitor answers the request for a window, the answer for a
  -- plant is an exception exactly when some row has no valid time or a value that its field refuses,
  -- and the answer for a meter exactly when some row lacks a valid time, temperature or humidity; or,
  -- for both, when some times have a time zone and some have none.
  pub fetch_readings_fails :
      (is_absent (fetch_plant_readings get config mac (some start_ts) (some end_ts) max_points)
        ≡ (any_of is_no_plant_row rows || mixes_times rows))
      × (is_absent (fetch_meter_readings get config mac (some start_ts) (some end_ts) max_points)
          ≡ (any_of is_no_meter_row rows || mixes_times rows))
  unfolding fetch_plant_readings fetch_meter_readings
  fetch_readings_fails = (
    rw
        (
          fetch_with-rows map_reading (λ r. r.timestamp),
          is_absent-sorted_if_all map_reading (λ r. r.timestamp) map_reading_stamp rows,
          any_failing-any_of map_reading is_no_plant_row map_reading-is_no_plant_row rows,
        )
        refl,
    rw
        (
          fetch_with-rows meter_reading (λ r. r.timestamp),
          is_absent-sorted_if_all meter_reading (λ r. r.timestamp) meter_reading_stamp rows,
          any_failing-any_of meter_reading is_no_meter_row meter_reading-is_no_meter_row rows,
        )
        refl,
  )
