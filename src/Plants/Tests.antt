-- ===== src/Plants/Tests.antt =====
-- Two configured plants, and an answer that names one of them.
use esp32_home_display.Prelude.{
  ℕ, ◌≤◌, ◌≡◌, ◌||◌, refl, Option, none, some, List, [], ◌∷◌, All, pos,
}
use esp32_home_display.Text.{codes, upper, str_eq, str_member, is_empty}
use esp32_home_display.Common.{mac_address_re, Datetime}
use esp32_home_display.Database.{switchbot_type, xiaomi_type}
use esp32_home_display.Database.Memory.{Tables, memory_session}
use esp32_home_display.Plants.{
  PlantSensorConfig, RawSensor, parse_plant_sensors, slug_for_mac, LatestBody, latest_v2_entries,
  check_mac,
}
use esp32_home_display.Plants.Slugs.{slug_for_mac-parse_plant_sensors}
use esp32_home_display.Float.{whole}
use esp32_home_display.Plants.Readings.{
  valid, absent, any_of, ProxyConfig, ProxyRequest, MonitorRow, PlantReadingOut,
  fetch_plant_readings, fetch_meter_readings,
}
use esp32_home_display.Plants.Readings.Sorted.{NewestFirst, at_key}
use esp32_home_display.Plants.Readings.Rows.{
  is_absent, is_no_plant_row, is_no_meter_row, mixes_times,
}
use esp32_home_display.Plants.Readings.Served.{
  fetch_plant_readings-NewestFirst, fetch_readings_fails,
}
use esp32_home_display.Plants.Latest.{IsShown, latest_v2_entries-IsShown}

abbrev raw : Option (List (Option RawSensor))
raw = some (
    some (record {
      mac = some (codes "aa:bb:cc:dd:ee:07");
      slug = some (codes "fern");
      name = some (codes "Fern");
    })
    ∷ some (record {
      mac = some (codes "aa:bb:cc:dd:ee:08");
      slug = some (codes "palm");
      name = some (codes "Palm");
    })
    ∷ [])

abbrev palm : PlantSensorConfig
palm = record { mac = codes "AA:BB:CC:DD:EE:08"; slug = codes "palm"; name = codes "Palm" }

abbrev configured : List PlantSensorConfig
configured =
    record { mac = codes "AA:BB:CC:DD:EE:07"; slug = codes "fern"; name = codes "Fern" } ∷ palm ∷ []

slug_for_mac-parse_plant_sensors_example : slug_for_mac configured palm.mac ≡ some palm.slug
unfolding parse_plant_sensors check_mac mac_address_re upper str_member str_eq is_empty
slug_for_mac-parse_plant_sensors_example =
    slug_for_mac-parse_plant_sensors raw configured 1 palm refl refl

abbrev home : Tables
home = record { sensors = []; readings = [] }

abbrev answer : Option LatestBody
answer = some (record {
  entries = some (record { mac = palm.mac; name = palm.name }) ∷ none ∷ [];
  retry_after_secs = some 60;
})

latest_v2_entries-IsShown_example :
    All
      (IsShown switchbot_type none)
      (latest_v2_entries memory_session none none answer home).0.meters
    × All
        (IsShown xiaomi_type none)
        (latest_v2_entries memory_session none none answer home).0.plants
    × (1 ≤ (latest_v2_entries memory_session none none answer home).0.retry_after_secs)
latest_v2_entries-IsShown_example = latest_v2_entries-IsShown memory_session none none answer home

abbrev proxy : ProxyConfig
proxy = record {
  plant_monitor_url = codes "http://pi/";
  plant_monitor_api_token = codes "t0ken";
  plant_monitor_sensors = configured;
}

abbrev utc : ℕ → Datetime
utc t = record { instant = t; tzinfo = some (pos 0) }

abbrev dry : MonitorRow
dry = record {
  recorded_at = valid (utc 10);
  temperature_c = valid (whole 20);
  humidity_pct = absent;
  moisture_pct = valid (pos 8);
  lux = absent;
  conductivity_us_cm = absent;
}

abbrev watered : MonitorRow
watered = record dry { recorded_at = valid (utc 30); moisture_pct = valid (pos 41) }

abbrev monday : Datetime
monday = utc 5

abbrev tuesday : Datetime
tuesday = utc 50

abbrev monitor : ProxyRequest → Option (List MonitorRow)
monitor request = some (dry ∷ watered ∷ [])

abbrev shown_dry : PlantReadingOut
shown_dry = record {
  timestamp = utc 10;
  temperature_c = some (whole 20);
  moisture_pct = some (pos 8);
  light_lux = none;
  conductivity_us_cm = none;
}

abbrev shown : List PlantReadingOut
shown = shown_dry ∷ record shown_dry { timestamp = utc 30; moisture_pct = some (pos 41) } ∷ []

fetch_plant_readings-NewestFirst_example :
    (out : List PlantReadingOut) × (fetch_plant_readings monitor proxy palm.mac
        (some monday)
        (some tuesday)
        none
      ≡ some out)
    × NewestFirst (λ r. r.timestamp.instant) out
    × ((t : ℕ)
        → at_key (λ r. r.timestamp.instant) t out ≡ at_key (λ r. r.timestamp.instant) t shown)
unfolding slug_for_mac str_eq upper
fetch_plant_readings-NewestFirst_example =
    fetch_plant_readings-NewestFirst monitor proxy palm.mac palm.slug monday tuesday none
      (dry ∷ watered ∷ []) refl refl shown
      ((refl, refl, refl, refl, refl), ((refl, refl, refl, refl, refl), tt)) refl

fetch_readings_fails_example :
    (is_absent (fetch_plant_readings monitor proxy palm.mac (some monday) (some tuesday) none)
      ≡ (any_of is_no_plant_row (dry ∷ watered ∷ []) || mixes_times (dry ∷ watered ∷ [])))
    × (is_absent (fetch_meter_readings monitor proxy palm.mac (some monday) (some tuesday) none)
        ≡ (any_of is_no_meter_row (dry ∷ watered ∷ []) || mixes_times (dry ∷ watered ∷ [])))
unfolding slug_for_mac str_eq upper
fetch_readings_fails_example =
    fetch_readings_fails monitor proxy palm.mac palm.slug monday tuesday none (dry ∷ watered ∷ [])
      refl refl
