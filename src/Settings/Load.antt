-- ===== src/Settings/Load.antt =====
-- server/app/config.py: `load_config`, from the environment and what `json.load` gives of app.json. The
-- sections that are objects in the file are told apart from the other keys; a key that is missing is
-- absent.
use esp32_home_display.Prelude.{
  ℕ, Bool, true, ◌&&◌, Option, none, some, List, [], ◌∷◌, pos, if◌then◌else◌,
}
use esp32_home_display.Text.{Str, codes, upper, str_member}
use esp32_home_display.Float.{whole}
use esp32_home_display.Dict.{Dict, lookup}
use esp32_home_display.Common.{mac_address_re}
use esp32_home_display.Plants.{
  PlantSensorConfig, RawSensor, PlantError, parsed, refused, parse_plant_sensors,
}
use esp32_home_display.Settings.{
  Value, absent, text, flag, number, real, Errors, RateLimit, LevoitSettings,
}

-- "rate_limits", if it is an object.
pub record RawRateLimits : Type 0 where
  pub read : Option (Dict Value)
  pub live_write : Option (Dict Value)
  pub bulk_write : Option (Dict Value)
  pub burst : Option Value
  pub frontend : Option (Dict Value)
  pub login : Option (Dict Value)

-- "levoit_ah_controller", which may be missing or null.
pub data RawLevoit : Type 0 where
  no_levoit levoit_not_an_object : RawLevoit
  levoit_object : Dict Value → RawLevoit

pub record AppFile : Type 0 where
  pub driver : Option Str
  pub rate_limits : Option RawRateLimits
  pub levoit_ah_controller : RawLevoit
  pub plant_monitor_sensors : Option (Option (List (Option RawSensor)))
  pub settings : Dict Value

pub data LoadError : Type 0 where
  unknown_env bad_rate_limits bad_levoit bad_session_secure bad_port unknown_setting : LoadError
  bad_plants : PlantError → LoadError
  missing_variable : Str → LoadError
  invalid : Errors → LoadError

pub data Loaded (A : Type 0) : Type 0 where
  loaded : A → Loaded A
  failed : LoadError → Loaded A

abbrev pub then_load : {A B : Type 0} → Loaded A → (A → Loaded B) → Loaded B
then_load (loaded a) f = f a
then_load (failed e) f = failed e

unfoldable pub only_keys : List Str → Dict Value → Bool
only_keys names [] = true
only_keys names ((k, v) ∷ d) = str_member k names && only_keys names d

-- `RateLimit(**d)`
unfoldable pub parse_rate_limit : Option (Dict Value) → Loaded RateLimit
unfolding lookup only_keys
parse_rate_limit none = failed bad_rate_limits
parse_rate_limit (some d) = elim (lookup d (codes "limit")) [
  | none ↦ failed bad_rate_limits
  | some limit ↦ elim (lookup d (codes "period")) [
    | none ↦ failed bad_rate_limits
    | some period ↦
        if only_keys (codes "limit" ∷ codes "period" ∷ []) d
        then loaded (record { limit = limit; period = period })
        else failed bad_rate_limits
  ]
]

pub record RateLimits : Type 0 where
  pub read : RateLimit
  pub live_write : RateLimit
  pub bulk_write : RateLimit
  pub burst : Value
  pub frontend : RateLimit
  pub login : RateLimit

abbrev a_minute : ℕ → RateLimit
a_minute limit = record { limit = number (pos limit); period = number (pos 60) }

unfoldable pub default_rate_limits : RateLimits
default_rate_limits = record {
  read = a_minute 60;
  live_write = a_minute 10;
  bulk_write = a_minute 120;
  burst = flag true;
  frontend = a_minute 120;
  login = a_minute 3;
}

abbrev value_or : Option Value → Value → Value
value_or none default = default
value_or (some v) default = v

unfoldable pub parse_rate_limits : RawRateLimits → Loaded RateLimits
unfolding parse_rate_limit
parse_rate_limits raw = then_load (parse_rate_limit raw.read) λ read.
    then_load (parse_rate_limit raw.live_write) λ live_write.
      then_load (parse_rate_limit raw.bulk_write) λ bulk_write.
        then_load (parse_rate_limit raw.frontend) λ frontend.
          then_load (parse_rate_limit raw.login) λ login. loaded (record {
            read = read;
            live_write = live_write;
            bulk_write = bulk_write;
            burst = value_or raw.burst (flag true);
            frontend = frontend;
            login = login;
          })

unfoldable pub rate_limits_of : Option RawRateLimits → Loaded RateLimits
unfolding parse_rate_limits default_rate_limits
rate_limits_of none = loaded default_rate_limits
rate_limits_of (some raw) = parse_rate_limits raw

-- A MAC address that is a text is checked and put into upper case here already.
unfoldable pub levoit_mac : Option Value → Loaded Value
levoit_mac (some (text mac)) =
    if mac_address_re mac then loaded (text (upper mac)) else failed bad_levoit
levoit_mac (some v) = loaded v
levoit_mac none = loaded absent

unfoldable pub levoit_of : Dict Value → Value → LevoitSettings
unfolding lookup
levoit_of d mac = record {
  switchbot_mac = mac;
  target_absolute_humidity = value_or (lookup d (codes "target_absolute_humidity")) absent;
  server_base_url = value_or (lookup d (codes "server_base_url")) absent;
  minimum_humidity = value_or (lookup d (codes "minimum_humidity")) (number (pos 40));
  maximum_humidity = value_or (lookup d (codes "maximum_humidity")) (number (pos 60));
  poll_interval_seconds = value_or (lookup d (codes "poll_interval_seconds")) (number (pos 300));
  humidity_change_threshold =
      value_or (lookup d (codes "humidity_change_threshold")) (real (whole 1));
}

-- Keys that are not known are passed over.
unfoldable pub parse_levoit_ah_controller : RawLevoit → Loaded LevoitSettings
unfolding lookup levoit_mac levoit_of
parse_levoit_ah_controller no_levoit = loaded (levoit_of [] absent)
parse_levoit_ah_controller levoit_not_an_object = failed bad_levoit
parse_levoit_ah_controller (levoit_object d) =
    then_load (levoit_mac (lookup d (codes "switchbot_mac"))) λ mac. loaded (levoit_of d mac)

unfoldable pub plants_of :
    Option (Option (List (Option RawSensor))) → Loaded (List PlantSensorConfig)
unfolding parse_plant_sensors
plants_of none = loaded []
plants_of (some raw) = elim (parse_plant_sensors raw) [
  | parsed sensors ↦ loaded sensors
  | refused e ↦ failed (bad_plants e)
]

unfoldable pub require_env : Dict Str → Str → Loaded Str
unfolding lookup
require_env environ name = elim (lookup environ name) [
  | none ↦ failed (missing_variable name)
  | some value ↦ loaded value
]
