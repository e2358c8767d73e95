-- ===== src/Routes/Keyless.antt =====
-- What a device route answers to a request without the key.
use esp32_home_display.Prelude.{
  ℕ, ◌≡◌, refl, Bool, true, false, Option, none, some, if◌then◌else◌, arith,
}
use esp32_home_display.Text.{Str, is_empty}
use esp32_home_display.Result.{Error, err, misconfigured, unauthorized}
use esp32_home_display.Database.{Session}
use esp32_home_display.RateLimit.{MapStore}
use esp32_home_display.Access.{
  AccessConfig, Request, LimiterName, api_key_read, api_key_live_write, api_key_bulk_write,
  rejected, verify_api_key, require_api_key, device_guard,
}
use esp32_home_display.Access.Guards.{has_key}
use esp32_home_display.Routes.{AppConfig, Outside, failed, status_of}
use esp32_home_display.Routes.Handlers.{
  Route, guard, after_guard, serve, post_switchbot_sensors, post_switchbot_bulk,
  post_switchbot_reading, get_sensors, get_meter_latest_v2, get_sensors_latest_v2,
  get_sensor_readings,
}

-- The routes that are for devices only.
abbrev pub is_device_route : {Raw : Type 0} → Route Raw → Bool
is_device_route (post_switchbot_sensors _) = true
is_device_route (post_switchbot_bulk _ _) = true
is_device_route (post_switchbot_reading _) = true
is_device_route get_sensors = false
is_device_route get_meter_latest_v2 = false
is_device_route (get_sensors_latest_v2 _) = false
is_device_route (get_sensor_readings _ _) = false

abbrev keyless_error : AccessConfig → Error
keyless_error access = if is_empty access.api_key then misconfigured else unauthorized

abbrev pub keyless_status : AccessConfig → ℕ
keyless_status access = if is_empty access.api_key then 500 else 401

status_of-keyless_error :
    (access : AccessConfig) → status_of (keyless_error access) ≡ keyless_status access
unfolding status_of
status_of-keyless_error access = ground arith

verify_api_key-keyless_error :
    (access : AccessConfig) (provided : Option Str)
    → has_key access provided ≡ false
    → verify_api_key access.api_key provided ≡ err (keyless_error access)
unfolding verify_api_key
verify_api_key-keyless_error access none h = ground arith
verify_api_key-keyless_error access (some k) h = ground arith

module _ {D Raw S : Type 0} (db : Session D) (m : MapStore S) (hz : ℕ) (cfg : AppConfig)
    (out : Outside Raw) (request : Request) (s : S)
    (keyless : has_key cfg.access request.x_api_key ≡ false) where
  device_guard-keyless_error :
      (name : LimiterName)
      → device_guard m hz cfg.access name request s ≡ (s, rejected (keyless_error cfg.access))
  unfolding device_guard require_api_key
  device_guard-keyless_error name =
      rw
        (
          device_guard,
          require_api_key,
          verify_api_key-keyless_error cfg.access request.x_api_key keyless,
        )
        refl

  -- A request to a device route that does not carry the configured key, or that comes while no key is
  -- configured, is answered 401, or 500 if none is configured; no limiter counts it, and the database
  -- stays as it was.
  pub serve-keyless_status :
      (route : Route Raw) (d : D)
      → is_device_route route ≡ true
      → serve db m hz cfg out route request s d ≡ (failed (keyless_status cfg.access), (s, d))
  unfolding serve guard after_guard
  serve-keyless_status (post_switchbot_sensors requested) d device =
      rw
        (
          serve,
          guard,
          device_guard-keyless_error api_key_read,
          after_guard,
          status_of-keyless_error cfg.access,
        )
        refl
  serve-keyless_status (post_switchbot_bulk sensor_id readings) d device =
      rw
        (
          serve,
          guard,
          device_guard-keyless_error api_key_bulk_write,
          after_guard,
          status_of-keyless_error cfg.access,
        )
        refl
  serve-keyless_status (post_switchbot_reading reading) d device =
      rw
        (
          serve,
          guard,
          device_guard-keyless_error api_key_live_write,
          after_guard,
          status_of-keyless_error cfg.access,
        )
        refl
  serve-keyless_status get_sensors d device = absurd (ground arith)
  serve-keyless_status get_meter_latest_v2 d device = absurd (ground arith)
  serve-keyless_status (get_sensors_latest_v2 _) d device = absurd (ground arith)
  serve-keyless_status (get_sensor_readings _ _) d device = absurd (ground arith)
