-- ===== src/Settings/Accepted.antt =====
-- What the other parts of the server may rely on once a configuration was accepted.
use esp32_home_display.Prelude.{
  ℕ, ◌≤◌, ◌≡◌, refl, Bool, true, false, [], ◌∷◌, pos, arith, if◌then◌else◌,
}
use esp32_home_display.Text.{codes}
use esp32_home_display.Settings.{
  Value, absent, other, text, flag, number, real, check_mac_or_absent, check_positive_or_absent,
  check_url_or_absent, check_not_negative, LevoitSettings, Config, check_required, check_strong,
  check_flag, check_true, check_int_range, check_positive_int, validate_rate_limit, check_order,
  validate_levoit_ah_controller, weak_api_keys, weak_secrets, weak_passwords, check_prod,
  check_rate_limits, check_ranges, validate_config,
}
use esp32_home_display.Settings.Checks.{
  IsBetween, IsPositiveLimit, IsStrong, all_errors-AllNone, check_int_range-IsBetween,
  validate_rate_limit-IsPositiveLimit, text-IsStrong, check_order_lem,
}

-- The limits of the humidifier: percentages in order.
abbrev pub HasOrderedLimits : LevoitSettings → Type 0
HasOrderedLimits cfg =
    (lo : ℕ) × (hi : ℕ) × (cfg.minimum_humidity ≡ number (pos lo))
    × (cfg.maximum_humidity ≡ number (pos hi))
    × (lo ≤ hi)
    × (hi ≤ 100)

validate_levoit_ah_controller-HasOrderedLimits :
    (cfg : LevoitSettings) → validate_levoit_ah_controller cfg ≡ [] → HasOrderedLimits cfg
unfolding validate_levoit_ah_controller
validate_levoit_ah_controller-HasOrderedLimits cfg h =
    let none =
      all_errors-AllNone
        (check_mac_or_absent (codes "switchbot_mac") cfg.switchbot_mac
          ∷ check_positive_or_absent (codes "target_absolute_humidity") cfg.target_absolute_humidity
          ∷ check_url_or_absent (codes "server_base_url") cfg.server_base_url
          ∷ check_int_range (codes "minimum_humidity") 0 100 cfg.minimum_humidity
          ∷ check_int_range (codes "maximum_humidity") 0 100 cfg.maximum_humidity
          ∷ check_order (codes "minimum_humidity") cfg.minimum_humidity cfg.maximum_humidity
          ∷ check_positive_int (codes "poll_interval_seconds") cfg.poll_interval_seconds
          ∷ check_not_negative (codes "humidity_change_threshold") cfg.humidity_change_threshold
          ∷ [])
        h in
    let (lo, e, _, lo_fits) =
      check_int_range-IsBetween (codes "minimum_humidity") 0 100 cfg.minimum_humidity
        none.1.1.1.0 in
    let (hi, f, _, hi_fits) =
      check_int_range-IsBetween (codes "maximum_humidity") 0 100 cfg.maximum_humidity
        none.1.1.1.1.0 in
    (
      lo,
      hi,
      e,
      f,
      check_order_lem (codes "minimum_humidity") lo hi lo_fits hi_fits
          (rw (e, f) at none.1.1.1.1.1.0),
      hi_fits,
    )

-- The four ranges that the uploads and the sync answers rely on.
abbrev pub HasRanges : Config → Type 0
HasRanges config =
    IsBetween 1 10_000 config.bulk_max_readings
    × IsBetween 1 10_080 config.sync_gap_threshold_minutes
    × IsBetween 1 10_000 config.sync_max_intervals_per_sensor
    × IsBetween 1 100_000 config.sync_max_intervals_total

check_ranges-HasRanges : (config : Config) → check_ranges config ≡ [] → HasRanges config
unfolding check_ranges
check_ranges-HasRanges config h =
    let none =
      all_errors-AllNone
        (check_int_range (codes "switchbot_bulk_max_readings") 1 10_000 config.bulk_max_readings
          ∷ check_int_range (codes "switchbot_sync_gap_threshold_minutes") 1 10_080
              config.sync_gap_threshold_minutes
          ∷ check_int_range (codes "switchbot_sync_max_intervals_per_sensor") 1 10_000
              config.sync_max_intervals_per_sensor
          ∷ check_int_range (codes "switchbot_sync_max_intervals_total") 1 100_000
              config.sync_max_intervals_total
          ∷ [])
        h in
    (
      check_int_range-IsBetween (codes "switchbot_bulk_max_readings") 1 10_000
          config.bulk_max_readings none.0,
      check_int_range-IsBetween (codes "switchbot_sync_gap_threshold_minutes") 1 10_080
          config.sync_gap_threshold_minutes none.1.0,
      check_int_range-IsBetween (codes "switchbot_sync_max_intervals_per_sensor") 1 10_000
          config.sync_max_intervals_per_sensor none.1.1.0,
      check_int_range-IsBetween (codes "switchbot_sync_max_intervals_total") 1 100_000
          config.sync_max_intervals_total none.1.1.1.0,
    )

-- Limits and periods from which each limiter gets a positive capacity and rate.
abbrev pub HasRateLimits : Config → Type 0
HasRateLimits config =
    IsPositiveLimit config.read
    × IsPositiveLimit config.live_write
    × IsPositiveLimit config.bulk_write
    × IsPositiveLimit config.frontend
    × IsPositiveLimit config.login

check_rate_limits-HasRateLimits :
    (config : Config) → check_rate_limits config ≡ [] → HasRateLimits config
unfolding check_rate_limits
check_rate_limits-HasRateLimits config h =
    let none =
      all_errors-AllNone
        (validate_rate_limit (codes "rate_limits.api_key.read") config.read
          ∷ validate_rate_limit (codes "rate_limits.api_key.live_write") config.live_write
          ∷ validate_rate_limit (codes "rate_limits.api_key.bulk_write") config.bulk_write
          ∷ check_flag (codes "rate_limits.api_key.burst") config.burst
          ∷ validate_rate_limit (codes "rate_limits.frontend") config.frontend
          ∷ validate_rate_limit (codes "rate_limits.login") config.login
          ∷ [])
        h in
    (
      validate_rate_limit-IsPositiveLimit (codes "rate_limits.api_key.read") config.read none.0,
      validate_rate_limit-IsPositiveLimit (codes "rate_limits.api_key.live_write") config.live_write
          none.1.0,
      validate_rate_limit-IsPositiveLimit (codes "rate_limits.api_key.bulk_write") config.bulk_write
          none.1.1.0,
      validate_rate_limit-IsPositiveLimit (codes "rate_limits.frontend") config.frontend
          none.1.1.1.1.0,
      validate_rate_limit-IsPositiveLimit (codes "rate_limits.login") config.login none.1.1.1.1.1.0,
    )

-- A configuration that is accepted, in whatever environment, has all its sizes in their ranges,
-- positive limits and periods for every rate limiter, and percentages in order for the humidifier.
pub validate_config-HasRanges :
    (config : Config) (prod : Bool)
    → validate_config config prod ≡ []
    → HasRanges config × HasRateLimits config × HasOrderedLimits config.levoit_ah_controller
unfolding validate_config
validate_config-HasRanges config prod h =
    let none =
      all_errors-AllNone
        (check_required (codes "api_key") config.api_key
          ∷ check_required (codes "session_secret") config.session_secret
          ∷ check_required (codes "dashboard_password") config.dashboard_password
          ∷ check_flag (codes "session_secure") config.session_secure
          ∷ (if prod then check_prod config else [])
          ∷ check_ranges config
          ∷ check_rate_limits config
          ∷ validate_levoit_ah_controller config.levoit_ah_controller
          ∷ [])
        h in
    (
      check_ranges-HasRanges config none.1.1.1.1.1.0,
      check_rate_limits-HasRateLimits config none.1.1.1.1.1.1.0,
      validate_levoit_ah_controller-HasOrderedLimits config.levoit_ah_controller
          none.1.1.1.1.1.1.1.0,
    )

-- A configuration that is accepted for production has secrets that are long enough and no known
-- defaults, and a session cookie that is sent over secure connections only.
pub validate_config-IsStrong :
    (config : Config)
    → validate_config config true ≡ []
    → IsStrong 0 weak_api_keys config.api_key
      × IsStrong 32 weak_secrets config.session_secret
      × IsStrong 12 weak_passwords config.dashboard_password
      × (config.session_secure ≡ flag true)
unfolding validate_config check_prod
validate_config-IsStrong config h =
    let none =
      all_errors-AllNone
        (check_required (codes "api_key") config.api_key
          ∷ check_required (codes "session_secret") config.session_secret
          ∷ check_required (codes "dashboard_password") config.dashboard_password
          ∷ check_flag (codes "session_secure") config.session_secure
          ∷ (check_prod config)
          ∷ check_ranges config
          ∷ check_rate_limits config
          ∷ validate_levoit_ah_controller config.levoit_ah_controller
          ∷ [])
        h in
    let strong =
      all_errors-AllNone
        (check_strong (codes "api_key") 0 weak_api_keys config.api_key
          ∷ check_strong (codes "session_secret") 32 weak_secrets config.session_secret
          ∷ check_strong (codes "dashboard_password") 12 weak_passwords config.dashboard_password
          ∷ check_true (codes "session_secure") config.session_secure
          ∷ [])
        none.1.1.1.1.0 in
    (
      text-IsStrong (codes "api_key") 0 weak_api_keys config.api_key none.0 strong.0,
      text-IsStrong (codes "session_secret") 32 weak_secrets config.session_secret none.1.0
          strong.1.0,
      text-IsStrong (codes "dashboard_password") 12 weak_passwords config.dashboard_password
          none.1.1.0 strong.1.1.0,
      secure config.session_secure none.1.1.1.0 strong.1.1.1.0,
    )
  where
    secure :
        (v : Value)
        → check_flag (codes "session_secure") v ≡ []
        → check_true (codes "session_secure") v ≡ []
        → v ≡ flag true
    secure (flag true) a b = refl
    secure (flag false) a b = unfold check_true in absurd (ground arith)
    secure absent a b = unfold check_flag in absurd (ground arith)
    secure other a b = unfold check_flag in absurd (ground arith)
    secure (text s) a b = unfold check_flag in absurd (ground arith)
    secure (number n) a b = unfold check_flag in absurd (ground arith)
    secure (real x) a b = unfold check_flag in absurd (ground arith)
