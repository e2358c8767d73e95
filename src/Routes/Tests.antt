-- ===== src/Routes/Tests.antt =====
-- A device with and without its key, at a server with no sensors.
use esp32_home_display.Prelude.{ℕ, ◌≡◌, refl, true, false, none, some, [], ◌∷◌, pos}
use esp32_home_display.Text.{codes, str_eq, is_empty}
use esp32_home_display.Float.{whole}
use esp32_home_display.Dict.{Dict}
use esp32_home_display.Database.Memory.{Tables, memory_session}
use esp32_home_display.RateLimit.{TokenBucketState, memory_map_store}
use esp32_home_display.Access.{Request}
use esp32_home_display.Routes.{AppConfig, Outside, failed}
use esp32_home_display.Routes.Handlers.{post_switchbot_bulk, serve}
use esp32_home_display.Routes.Keyless.{keyless_status, serve-keyless_status}

abbrev cfg : AppConfig
cfg = record {
  access = record {
    api_key = codes "k7Qx";
    dashboard_password = codes "open";
    read = record { limit = 60; period = 60 };
    live_write = record { limit = 10; period = 60 };
    bulk_write = record { limit = 120; period = 60 };
    burst = true;
    frontend = record { limit = 120; period = 60 };
    login = record { limit = 3; period = 60 };
  };
  proxy = record {
    plant_monitor_url = [];
    plant_monitor_api_token = [];
    plant_monitor_sensors = [];
  };
  bulk_max_readings = 200;
  sync_gap_threshold_minutes = 15;
  sync_max_intervals_per_sensor = 10;
  sync_max_intervals_total = 40;
}

abbrev outside : Outside ℕ
outside = record {
  is_object = λ raw. true;
  parse = λ raw. some (record { instant = raw; tzinfo = some (pos 0) }, whole 20, whole 50);
  monitor = λ request. none;
  meter_latest = none;
  meter_entries = none;
  flower_care_entries = none;
  accepts_meters = λ latest. true;
  accepts_latest = λ latest. true;
  name_leb = λ s t. true;
  now = 9;
}

abbrev device : Request
device = record { x_api_key = some (codes "k7Qx"); authenticated = false; client = none; now = 9 }

abbrev stranger : Request
stranger = record device { x_api_key = some (codes "guess") }

abbrev empty_store : Dict TokenBucketState
empty_store = []

abbrev tables : Tables
tables = record { sensors = []; readings = [] }

serve-keyless_status_example :
    serve memory_session memory_map_store 1 cfg outside
      (post_switchbot_bulk 4 (7 ∷ []))
      stranger
      empty_store
      tables
    ≡ (failed (keyless_status cfg.access), (empty_store, tables))
unfolding str_eq is_empty
serve-keyless_status_example =
    serve-keyless_status memory_session memory_map_store 1 cfg outside stranger empty_store refl
      (post_switchbot_bulk 4 (7 ∷ [])) tables refl
