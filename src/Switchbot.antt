-- ===== src/Switchbot.antt =====
-- server/app/switchbot.py: the SwitchBot meter's fields, their ranges, and the validation of a reading.
use esp32_home_display.Prelude.{Bool, false, Option, none, some, [], ◌∷◌, if◌then◌else◌}
use esp32_home_display.Text.{Str, codes, is_empty}
use esp32_home_display.Float.{whole, neg_whole}
use esp32_home_display.Result.{Result, ok, err, empty_name, and_then}
use esp32_home_display.Common.{DataField, ReadingIn, check_hard_ranges}
use esp32_home_display.Database.{switchbot_type}
use esp32_home_display.Ingest.{SensorSpec}

abbrev pub temperature_field : DataField
temperature_field = record {
  name = codes "temperature_c";
  getter = λ r. some r.temperature_c;
  hard_range = some (neg_whole 40, whole 125);
  soft_range = some (neg_whole 20, whole 60);
}

abbrev pub humidity_field : DataField
humidity_field = record {
  name = codes "humidity_pct";
  getter = λ r. some r.humidity_pct;
  hard_range = some (whole 0, whole 100);
  soft_range = none;
}

-- `SENSOR`
abbrev pub sensor_spec : SensorSpec
sensor_spec = record {
  db_sensor_type = switchbot_type;
  unique_constraint_name = codes "switchbot_readings_mac_timestamp_uniq";
  data_fields = temperature_field ∷ humidity_field ∷ [];
}

-- `name == ""`
unfoldable pub names_nothing : Option Str → Bool
names_nothing none = false
names_nothing (some name) = is_empty name

-- `ReadingIn.validate_fields`
unfoldable pub validate_fields : ReadingIn → Result ReadingIn
validate_fields reading =
    if names_nothing reading.name
    then err empty_name
    else and_then (check_hard_ranges reading sensor_spec.data_fields) (λ _. ok reading)
