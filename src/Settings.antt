-- ===== src/Settings.antt =====
-- server/app/config.py: the checks of a configuration. A configured value is what the JSON file or
-- the environment gives; a message is told by the setting that it names and by its kind.
pub mod Checks
pub mod Accepted
pub mod Load
pub mod Environment
mod Tests
use esp32_home_display.Prelude.{
  ℕ, ◌+◌, ◌*◌, ◌≡◌, Bool, true, false, ◌&&◌, ◌||◌, not, Option, none, some, List, [], ◌∷◌, ◌++◌, ℤ,
  pos, negsuc, length, ltb, leb, leb_ℤ, ltb_ℤ, if◌then◌else◌,
}
use esp32_home_display.Text.{Str, codes, is_empty, starts_with, str_member}
use esp32_home_display.Float.{Float, whole, flt, feq}
use esp32_home_display.Common.{mac_address_re}

pub data Value : Type 0 where
  absent other : Value
  text : Str → Value
  flag : Bool → Value
  number : ℤ → Value
  real : Float → Value

pub data Problem : Type 0 where
  must_be_string required must_be_integer must_be_positive not_in_range : Problem
  must_be_boolean must_be_true known_default_or_short : Problem
  invalid_mac_address must_be_number must_be_url above_maximum must_not_be_negative : Problem

abbrev pub Errors : Type 0
Errors = List (Str × Problem)

abbrev pub reject : Bool → Str → Problem → Errors
reject test name problem = if test then (name, problem) ∷ [] else []

-- The messages of checks that all run, in their order.
abbrev pub all_errors : List Errors → Errors
all_errors [] = []
all_errors (e ∷ es) = e ++ all_errors es

pub record RateLimit : Type 0 where
  pub limit : Value
  pub period : Value

pub record LevoitSettings : Type 0 where
  pub switchbot_mac : Value
  pub target_absolute_humidity : Value
  pub server_base_url : Value
  pub minimum_humidity : Value
  pub maximum_humidity : Value
  pub poll_interval_seconds : Value
  pub humidity_change_threshold : Value

pub record Config : Type 0 where
  pub api_key : Value
  pub session_secret : Value
  pub dashboard_password : Value
  pub session_secure : Value
  pub bulk_max_readings : Value
  pub sync_gap_threshold_minutes : Value
  pub sync_max_intervals_per_sensor : Value
  pub sync_max_intervals_total : Value
  pub read : RateLimit
  pub live_write : RateLimit
  pub bulk_write : RateLimit
  pub burst : Value
  pub frontend : RateLimit
  pub login : RateLimit
  pub levoit_ah_controller : LevoitSettings

-- A text that is required.
unfoldable pub check_required : Str → Value → Errors
check_required name (text s) = reject (is_empty s) name required
check_required name _ = (name, must_be_string) ∷ []

-- In production a text that is there must be long enough and no known default.
unfoldable pub check_strong : Str → ℕ → List Str → Value → Errors
check_strong name shortest known (text s) =
    reject (not (is_empty s) && (ltb (length s) shortest || str_member s known)) name
      known_default_or_short
check_strong name shortest known _ = []

unfoldable pub check_flag : Str → Value → Errors
check_flag name (flag b) = []
check_flag name _ = (name, must_be_boolean) ∷ []

unfoldable pub check_true : Str → Value → Errors
check_true name (flag b) = reject (not b) name must_be_true
check_true name _ = []

-- `_check_int`, and the range that follows it
unfoldable pub check_int_range : Str → ℕ → ℕ → Value → Errors
check_int_range name lo hi (number (pos n)) = reject (not (leb lo n && leb n hi)) name not_in_range
check_int_range name lo hi (number (negsuc n)) = (name, not_in_range) ∷ []
check_int_range name lo hi _ = (name, must_be_integer) ∷ []

unfoldable pub check_positive_int : Str → Value → Errors
check_positive_int name (number (pos n)) = reject (leb n 0) name must_be_positive
check_positive_int name (number (negsuc n)) = (name, must_be_positive) ∷ []
check_positive_int name _ = (name, must_be_integer) ∷ []

unfoldable pub validate_rate_limit : Str → RateLimit → Errors
unfolding check_positive_int
validate_rate_limit prefix rl = all_errors (
    check_positive_int (prefix ++ codes ".limit") rl.limit
    ∷ check_positive_int (prefix ++ codes ".period") rl.period
    ∷ [])

unfoldable pub check_mac_or_absent : Str → Value → Errors
check_mac_or_absent name absent = []
check_mac_or_absent name (text mac) = reject (not (mac_address_re mac)) name invalid_mac_address
check_mac_or_absent name _ = (name, invalid_mac_address) ∷ []

unfoldable pub check_positive_or_absent : Str → Value → Errors
check_positive_or_absent name absent = []
check_positive_or_absent name (number n) = reject (leb_ℤ n (pos 0)) name must_be_positive
check_positive_or_absent name (real x) =
    reject (flt x (whole 0) || feq x (whole 0)) name must_be_positive
check_positive_or_absent name _ = (name, must_be_number) ∷ []

unfoldable pub check_url_or_absent : Str → Value → Errors
check_url_or_absent name absent = []
check_url_or_absent name (text url) =
    reject
      (is_empty url
        || not (starts_with url (codes "http://") || starts_with url (codes "https://")))
      name must_be_url
check_url_or_absent name _ = (name, must_be_url) ∷ []

unfoldable pub check_not_negative : Str → Value → Errors
check_not_negative name (number n) = reject (ltb_ℤ n (pos 0)) name must_not_be_negative
check_not_negative name (real x) = reject (flt x (whole 0)) name must_not_be_negative
check_not_negative name _ = (name, must_be_number) ∷ []

-- The minimum is compared with the maximum only if both are percentages.
unfoldable pub check_order : Str → Value → Value → Errors
check_order name (number (pos lo)) (number (pos hi)) =
    reject (leb lo 100 && leb hi 100 && ltb hi lo) name above_maximum
check_order name _ _ = []

unfoldable pub validate_levoit_ah_controller : LevoitSettings → Errors
unfolding check_mac_or_absent check_positive_or_absent check_url_or_absent check_int_range
    check_order check_positive_int check_not_negative
validate_levoit_ah_controller cfg = all_errors (
    check_mac_or_absent (codes "switchbot_mac") cfg.switchbot_mac
    ∷ check_positive_or_absent (codes "target_absolute_humidity") cfg.target_absolute_humidity
    ∷ check_url_or_absent (codes "server_base_url") cfg.server_base_url
    ∷ check_int_range (codes "minimum_humidity") 0 100 cfg.minimum_humidity
    ∷ check_int_range (codes "maximum_humidity") 0 100 cfg.maximum_humidity
    ∷ check_order (codes "minimum_humidity") cfg.minimum_humidity cfg.maximum_humidity
    ∷ check_positive_int (codes "poll_interval_seconds") cfg.poll_interval_seconds
    ∷ check_not_negative (codes "humidity_change_threshold") cfg.humidity_change_threshold
    ∷ [])

abbrev pub weak_api_keys : List Str
weak_api_keys = codes "dev-api-key" ∷ codes "test-api-key" ∷ []

abbrev pub weak_secrets : List Str
weak_secrets = codes "a-long-random-secret-string" ∷ codes "test-session-secret" ∷ []

abbrev pub weak_passwords : List Str
weak_passwords = codes "your-dashboard-password" ∷ codes "test-dashboard-password" ∷ []

-- `if env == "prod":`
unfoldable pub check_prod : Config → Errors
unfolding check_strong check_true
check_prod config = all_errors (
    check_strong (codes "api_key") 0 weak_api_keys config.api_key
    ∷ check_strong (codes "session_secret") 32 weak_secrets config.session_secret
    ∷ check_strong (codes "dashboard_password") 12 weak_passwords config.dashboard_password
    ∷ check_true (codes "session_secure") config.session_secure
    ∷ [])

unfoldable pub check_rate_limits : Config → Errors
unfolding validate_rate_limit check_flag
check_rate_limits config = all_errors (
    validate_rate_limit (codes "rate_limits.api_key.read") config.read
    ∷ validate_rate_limit (codes "rate_limits.api_key.live_write") config.live_write
    ∷ validate_rate_limit (codes "rate_limits.api_key.bulk_write") config.bulk_write
    ∷ check_flag (codes "rate_limits.api_key.burst") config.burst
    ∷ validate_rate_limit (codes "rate_limits.frontend") config.frontend
    ∷ validate_rate_limit (codes "rate_limits.login") config.login
    ∷ [])

unfoldable pub check_ranges : Config → Errors
unfolding check_int_range
check_ranges config = all_errors (
    check_int_range (codes "switchbot_bulk_max_readings") 1 10_000 config.bulk_max_readings
    ∷ check_int_range (codes "switchbot_sync_gap_threshold_minutes") 1 10_080
        config.sync_gap_threshold_minutes
    ∷ check_int_range (codes "switchbot_sync_max_intervals_per_sensor") 1 10_000
        config.sync_max_intervals_per_sensor
    ∷ check_int_range (codes "switchbot_sync_max_intervals_total") 1 100_000
        config.sync_max_intervals_total
    ∷ [])

-- The messages that `validate_config` raises with, or none if it accepts.
unfoldable pub validate_config : Config → Bool → Errors
unfolding check_required check_flag check_prod check_rate_limits check_ranges
    validate_levoit_ah_controller
validate_config config prod = all_errors (
    check_required (codes "api_key") config.api_key
    ∷ check_required (codes "session_secret") config.session_secret
    ∷ check_required (codes "dashboard_password") config.dashboard_password
    ∷ check_flag (codes "session_secure") config.session_secure
    ∷ (if prod then check_prod config else [])
    ∷ check_ranges config
    ∷ check_rate_limits config
    ∷ validate_levoit_ah_controller config.levoit_ah_controller
    ∷ [])
