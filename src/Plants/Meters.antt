-- ===== src/Plants/Meters.antt =====
-- server/app/plant_proxy.py: `meter_latest_v2`, the monitor's answer as it is passed on to the device.
-- The body is none if the request fails or the body is no object, and its list none if it is no list.
use esp32_home_display.Prelude.{ℕ, Bool, Option, none, some, List, [], ◌∷◌, if◌then◌else◌}
use esp32_home_display.Text.{Str, is_empty}
use esp32_home_display.Float.{Float}
use esp32_home_display.Plants.{retry_after, meter_retry_default}

-- An entry that is an object. A MAC address that is no string is absent, and so is a missing time.
pub record MeterRow : Type 0 where
  pub mac : Option Str
  pub name : Option Str
  pub recorded_at : Option Str
  pub temperature_c : Option Float
  pub humidity_pct : Option Float
  pub stale : Bool

pub record MeterEntry : Type 0 where
  pub mac : Str
  pub name : Option Str
  pub recorded_at : Str
  pub temperature_c : Option Float
  pub humidity_pct : Option Float
  pub stale : Bool

pub record MeterBody : Type 0 where
  pub sensors : Option (List (Option MeterRow))
  pub retry_after_secs : Option ℕ

pub record MeterLatest : Type 0 where
  pub sensors : List MeterEntry
  pub retry_after_secs : ℕ

-- An empty time is as good as none.
unfoldable pub meter_entry : Option MeterRow → Option MeterEntry
meter_entry none = none
meter_entry (some row) = elim row.mac [
  | none ↦ none
  | some mac ↦ elim row.recorded_at [
    | none ↦ none
    | some recorded_at ↦
        if is_empty recorded_at
        then none
        else some (record {
          mac = mac;
          name = row.name;
          recorded_at = recorded_at;
          temperature_c = row.temperature_c;
          humidity_pct = row.humidity_pct;
          stale = row.stale;
        })
  ]
]

unfoldable pub keep_entry : Option MeterEntry → List MeterEntry → List MeterEntry
keep_entry none rest = rest
keep_entry (some entry) rest = entry ∷ rest

unfoldable pub meter_entries : List (Option MeterRow) → List MeterEntry
unfolding keep_entry meter_entry
meter_entries [] = []
meter_entries (row ∷ rows) = keep_entry (meter_entry row) (meter_entries rows)

unfoldable pub meter_latest_v2 : Option MeterBody → MeterLatest
unfolding meter_entries retry_after
meter_latest_v2 none = record { sensors = []; retry_after_secs = meter_retry_default }
meter_latest_v2 (some body) = elim body.sensors [
  | none ↦ record { sensors = []; retry_after_secs = meter_retry_default }
  | some rows ↦ record {
    sensors = meter_entries rows;
    retry_after_secs = retry_after body.retry_after_secs meter_retry_default;
  }
]
