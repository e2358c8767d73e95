-- ===== src/Settings/Tests.antt =====
-- A configuration for production.
use esp32_home_display.Prelude.{◌≡◌, refl, true, [], pos}
use esp32_home_display.Text.{codes, is_empty, starts_with, str_member, str_eq}
use esp32_home_display.Settings.{
  absent, text, flag, number, RateLimit, LevoitSettings, Config, weak_api_keys, weak_secrets,
  weak_passwords, validate_config,
}
use esp32_home_display.Settings.Checks.{IsStrong}
use esp32_home_display.Settings.Accepted.{
  HasRanges, HasRateLimits, HasOrderedLimits, validate_config-HasRanges, validate_config-IsStrong,
}

abbrev once_a_second : RateLimit
once_a_second = record { limit = number (pos 60); period = number (pos 60) }

abbrev humidifier : LevoitSettings
humidifier = record {
  switchbot_mac = absent;
  target_absolute_humidity = absent;
  server_base_url = text (codes "https://home");
  minimum_humidity = number (pos 40);
  maximum_humidity = number (pos 60);
  poll_interval_seconds = number (pos 300);
  humidity_change_threshold = number (pos 1);
}

abbrev config : Config
config = record {
  api_key = text (codes "k7Qx");
  session_secret = text (codes "0123456789abcdef0123456789abcdef");
  dashboard_password = text (codes "correct horse");
  session_secure = flag true;
  bulk_max_readings = number (pos 200);
  sync_gap_threshold_minutes = number (pos 20);
  sync_max_intervals_per_sensor = number (pos 20);
  sync_max_intervals_total = number (pos 50);
  read = once_a_second;
  live_write = once_a_second;
  bulk_write = once_a_second;
  burst = flag true;
  frontend = once_a_second;
  login = once_a_second;
  levoit_ah_controller = humidifier;
}

config_accepted : validate_config config true ≡ []
unfolding validate_config is_empty starts_with str_member str_eq
config_accepted = refl

validate_config-HasRanges_example :
    HasRanges config × HasRateLimits config × HasOrderedLimits config.levoit_ah_controller
validate_config-HasRanges_example = validate_config-HasRanges config true config_accepted

validate_config-IsStrong_example :
    IsStrong 0 weak_api_keys config.api_key
    × IsStrong 32 weak_secrets config.session_secret
    × IsStrong 12 weak_passwords config.dashboard_password
    × (config.session_secure ≡ flag true)
validate_config-IsStrong_example = validate_config-IsStrong config config_accepted
