-- ===== src/Common.antt =====
-- server/app/common.py and server/app/sensor_spec.py: the checks that readings, MAC addresses and
-- timestamps go through. A datetime is its instant in microseconds since the year 1, with the
-- offset of its zone, if it has one; the clock reading `now` is an argument.
pub mod Mac
mod Tests
use esp32_home_display.Prelude.{
  ℕ, suc, zero, ◌+◌, ◌*◌, ◌≡◌, Bool, true, false, ◌&&◌, ◌||◌, Option, none, some, List, [], ◌∷◌,
  ◌++◌, ℤ, pos, ltb, leb, ◌==◌, if◌then◌else◌,
}
use esp32_home_display.Text.{Str, upper}
use esp32_home_display.Float.{Float, flt}
use esp32_home_display.Result.{
  Result, ok, err, bad_request, out_of_range, invalid_mac, missing_timezone, too_old,
  too_far_in_future, and_then,
}

pub record Datetime : Type 0 where
  pub instant : ℕ
  pub tzinfo : Option ℤ

-- `ReadingIn` of server/app/switchbot.py
pub record ReadingIn : Type 0 where
  pub mac : Str
  pub name : Option Str
  pub timestamp : Datetime
  pub temperature_c : Float
  pub humidity_pct : Float

abbrev pub Range : Type 0
Range = Float × Float

pub record DataField : Type 0 where
  pub name : Str
  pub getter : ReadingIn → Option Float
  pub hard_range : Option Range
  pub soft_range : Option Range

-- `value < min_value or value > max_value`
unfoldable pub outside : Float → Range → Bool
outside value (min_value, max_value) = flt value min_value || flt max_value value

unfoldable pub check_range : Str → Option Float → Range → Result (Unit {0})
unfolding outside
check_range name none range = ok tt
check_range name (some value) range = if outside value range then err (out_of_range name) else ok tt

-- The body of the loop: a field with no range, or with no value, is skipped.
unfoldable pub check_field : ReadingIn → Str → Option Float → Option Range → Result (Unit {0})
unfolding check_range
check_field reading name value none = ok tt
check_field reading name value (some range) = check_range name value range

unfoldable pub check_hard_ranges : ReadingIn → List DataField → Result (Unit {0})
unfolding check_field
check_hard_ranges reading [] = ok tt
check_hard_ranges reading (field ∷ fields) =
    let rest = check_hard_ranges reading fields in
    and_then (check_field reading field.name (field.getter reading) field.hard_range) (λ _. rest)

unfoldable pub is_suspicious : Option Float → Option Range → Bool
unfolding outside
is_suspicious value none = false
is_suspicious none (some range) = false
is_suspicious (some value) (some range) = outside value range

-- The names of the fields that are logged as suspicious.
unfoldable pub warn_soft_ranges : ReadingIn → List DataField → List Str
unfolding is_suspicious
warn_soft_ranges reading [] = []
warn_soft_ranges reading (field ∷ fields) =
    let rest = warn_soft_ranges reading fields in
    if is_suspicious (field.getter reading) field.soft_range then field.name ∷ rest else rest

-- `[0-9A-Fa-f]`
unfoldable pub is_hex : ℕ → Bool
is_hex c = (leb b'0' c && leb c b'9') || (leb b'A' c && leb c b'F') || (leb b'a' c && leb c b'f')

-- `(?:[0-9A-Fa-f]{2}:){n}[0-9A-Fa-f]{2}`, matched against the whole text
unfoldable pub hex_pairs : ℕ → Str → Bool
unfolding is_hex
hex_pairs zero (a ∷ b ∷ []) = is_hex a && is_hex b
hex_pairs (suc n) (a ∷ b ∷ c ∷ rest) = is_hex a && is_hex b && (c == b':') && hex_pairs n rest
hex_pairs _ _ = false

-- `MAC_ADDRESS_RE.fullmatch`
unfoldable pub mac_address_re : Str → Bool
unfolding hex_pairs
mac_address_re = hex_pairs 5

unfoldable pub validate_mac_address : Str → Result Str
validate_mac_address mac =
    if mac_address_re mac then ok (upper mac) else err (bad_request invalid_mac)

unfoldable pub normalize_timestamp_to_utc : Datetime → Result Datetime
normalize_timestamp_to_utc value = elim value.tzinfo [
  | none ↦ err (bad_request missing_timezone)
  | some offset ↦ ok (record value { tzinfo = some (pos 0) })
]

abbrev pub microseconds_per_second : ℕ
microseconds_per_second = 1_000_000

abbrev pub microseconds_per_day : ℕ
microseconds_per_day = 86_400 * 1_000_000

-- 2000-01-01 is day 730119 after 0001-01-01.
abbrev pub query_timestamp_min : ℕ
query_timestamp_min = 730_119 * (86_400 * 1_000_000)

abbrev pub query_timestamp_max_skew : ℕ
query_timestamp_max_skew = 7 * (86_400 * 1_000_000)

unfoldable pub validate_instant : ℕ → Datetime → Result (Option Datetime)
validate_instant now value =
    if ltb value.instant query_timestamp_min
    then err (bad_request too_old)
    else if ltb (now + query_timestamp_max_skew) value.instant
    then err (bad_request too_far_in_future)
    else ok (some (record value { tzinfo = some (pos 0) }))

unfoldable pub validate_query_timestamp : ℕ → Option Datetime → Result (Option Datetime)
unfolding validate_instant
validate_query_timestamp now none = ok none
validate_query_timestamp now (some value) = elim value.tzinfo [
  | none ↦ err (bad_request missing_timezone)
  | some offset ↦ validate_instant now value
]
