-- ===== src/Settings/Environment.antt =====
-- server/app/config.py: `load_config`, its chain of steps.
use esp32_home_display.Prelude.{
  ℕ, true, false, Option, none, some, List, [], ◌∷◌, ℤ, pos, if◌then◌else◌,
}
use esp32_home_display.Text.{Str, codes, str_eq, str_member}
use esp32_home_display.Dict.{Dict, lookup}
use esp32_home_display.Plants.{PlantSensorConfig}
use esp32_home_display.History.Arguments.{strip, lower, int_10}
use esp32_home_display.Settings.{Value, text, flag, number, LevoitSettings, Config, validate_config}
use esp32_home_display.Settings.Load.{
  AppFile, unknown_env, bad_session_secure, bad_port, unknown_setting, invalid, Loaded, loaded,
  failed, then_load, only_keys, RateLimits, rate_limits_of, parse_levoit_ah_controller, plants_of,
  require_env,
}

pub record DatabaseConfig : Type 0 where
  pub driver : Str
  pub host : Str
  pub port : ℤ
  pub name : Str
  pub user : Str
  pub password : Str

-- The settings that are checked, and those that are not.
pub record AppSettings : Type 0 where
  pub config : Config
  pub database : DatabaseConfig
  pub plant_monitor_sensors : List PlantSensorConfig
  pub vesync_username : Option Str
  pub vesync_password : Option Str
  pub vesync_device_cid : Option Str
  pub plant_monitor_url : Option Str
  pub plant_monitor_api_token : Option Str

abbrev pub known_envs : List Str
known_envs = codes "dev" ∷ codes "test" ∷ codes "prod" ∷ []

abbrev or_text : Option Str → Str → Str
or_text none default = default
or_text (some s) default = s

unfoldable pub check_env : Dict Str → Loaded Str
unfolding lookup
check_env environ =
    let env = or_text (lookup environ (codes "ENV")) (codes "dev") in
    if str_member env known_envs then loaded env else failed unknown_env

-- The environment's URL takes the place of the file's.
unfoldable pub with_base_url : Option Str → LevoitSettings → LevoitSettings
with_base_url none levoit = levoit
with_base_url (some url) levoit = record levoit { server_base_url = text url }

-- SESSION_SECURE, else the file's value, else true
unfoldable pub session_secure_of : Option Str → Option Value → Loaded Value
unfolding lower
session_secure_of none none = loaded (flag true)
session_secure_of none (some v) = loaded v
session_secure_of (some s) v =
    if str_eq (lower s) (codes "true")
    then loaded (flag true)
    else if str_eq (lower s) (codes "false")
    then loaded (flag false)
    else failed bad_session_secure

unfoldable pub port_of : Str → Loaded ℤ
unfolding strip int_10
port_of s = elim (int_10 (strip s)) [ none ↦ failed bad_port | some n ↦ loaded n ]

unfoldable pub load_database : Dict Str → Option Str → Loaded DatabaseConfig
unfolding require_env port_of
load_database environ driver = then_load (require_env environ (codes "DATABASE_HOST")) λ host.
    then_load (require_env environ (codes "DATABASE_PORT")) λ port_text.
      then_load (port_of port_text) λ port.
        then_load (require_env environ (codes "DATABASE_NAME")) λ name.
          then_load (require_env environ (codes "DATABASE_USER")) λ user.
            then_load (require_env environ (codes "DATABASE_PASSWORD")) λ password. loaded (record {
              driver = or_text driver (codes "postgresql+psycopg");
              host = host;
              port = port;
              name = name;
              user = user;
              password = password;
            })

-- The keys that `Config(**data)` takes from the file: the secrets are overwritten.
abbrev pub file_settings : List Str
file_settings =
    codes "api_key"
    ∷ codes "session_secret"
    ∷ codes "dashboard_password"
    ∷ codes "session_secure"
    ∷ codes "switchbot_sync_gap_threshold_minutes"
    ∷ codes "switchbot_sync_max_intervals_per_sensor"
    ∷ codes "switchbot_sync_max_intervals_total"
    ∷ codes "switchbot_bulk_max_readings"
    ∷ codes "openmeteo"
    ∷ []

abbrev setting : Dict Value → Str → ℕ → Value
setting settings name default = elim (lookup settings name) [
  | none ↦ number (pos default)
  | some v ↦ v
]

pub record Secrets : Type 0 where
  pub api_key : Str
  pub session_secret : Str
  pub dashboard_password : Str

unfoldable pub load_secrets : Dict Str → Loaded Secrets
unfolding require_env
load_secrets environ = then_load (require_env environ (codes "API_KEY")) λ api_key.
    then_load (require_env environ (codes "SESSION_SECRET")) λ session_secret.
      then_load (require_env environ (codes "DASHBOARD_PASSWORD")) λ dashboard_password.
        loaded (record {
          api_key = api_key;
          session_secret = session_secret;
          dashboard_password = dashboard_password;
        })

unfoldable pub build_config :
    Dict Value → Secrets → Value → RateLimits → LevoitSettings → Loaded Config
unfolding only_keys
build_config settings secrets session_secure limits levoit =
    if only_keys file_settings settings
    then loaded (record {
      api_key = text secrets.api_key;
      session_secret = text secrets.session_secret;
      dashboard_password = text secrets.dashboard_password;
      session_secure = session_secure;
      bulk_max_readings = setting settings (codes "switchbot_bulk_max_readings") 200;
      sync_gap_threshold_minutes =
          setting settings (codes "switchbot_sync_gap_threshold_minutes") 20;
      sync_max_intervals_per_sensor =
          setting settings (codes "switchbot_sync_max_intervals_per_sensor") 20;
      sync_max_intervals_total = setting settings (codes "switchbot_sync_max_intervals_total") 50;
      read = limits.read;
      live_write = limits.live_write;
      bulk_write = limits.bulk_write;
      burst = limits.burst;
      frontend = limits.frontend;
      login = limits.login;
      levoit_ah_controller = levoit;
    })
    else failed unknown_setting

unfoldable pub check_config : Str → Config → Loaded (Unit {0})
unfolding validate_config
check_config env config = elim (validate_config config (str_eq env (codes "prod"))) [
  | [] ↦ loaded tt
  | e ∷ es ↦ failed (invalid (e ∷ es))
]

unfoldable pub load_config : Dict Str → AppFile → Loaded AppSettings
unfolding lookup check_env rate_limits_of parse_levoit_ah_controller plants_of with_base_url
    load_secrets session_secure_of load_database build_config check_config
load_config environ file = then_load (check_env environ) λ env.
    then_load (rate_limits_of file.rate_limits) λ limits.
      then_load (parse_levoit_ah_controller file.levoit_ah_controller) λ levoit.
        then_load (plants_of file.plant_monitor_sensors) λ sensors.
          then_load (load_secrets environ) λ secrets.
            then_load
              (session_secure_of (lookup environ (codes "SESSION_SECURE"))
                (lookup file.settings (codes "session_secure")))
              λ session_secure. then_load (load_database environ file.driver) λ database.
                then_load
                  (build_config file.settings secrets session_secure limits
                    (with_base_url (lookup environ (codes "SERVER_BASE_URL")) levoit))
                  λ config. then_load (check_config env config) λ _. loaded (record {
                    config = config;
                    database = database;
                    plant_monitor_sensors = sensors;
                    vesync_username = lookup environ (codes "VESYNC_USERNAME");
                    vesync_password = lookup environ (codes "VESYNC_PASSWORD");
                    vesync_device_cid = lookup environ (codes "VESYNC_DEVICE_CID");
                    plant_monitor_url = lookup environ (codes "PLANT_MONITOR_URL");
                    plant_monitor_api_token = lookup environ (codes "PLANT_MONITOR_API_KEY");
                  })
