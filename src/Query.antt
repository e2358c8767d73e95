-- ===== src/Query.antt =====
-- server/app/service.py: the queries of a sensor's readings. A reading that is sent out is the row
-- itself; a window's length is in microseconds, and what the source divides as floats is divided
-- exactly.
pub mod Latest
pub mod Newest
pub mod Order
pub mod Page
pub mod Window
mod Tests
use Prim.Native.Nat.{max}
use esp32_home_display.Prelude.{
  ℕ, ◌+◌, ◌-◌, ◌*◌, ◌/◌, ◌≡◌, Bool, true, false, ◌&&◌, ◌||◌, not, Option, none, some, List, [], ◌∷◌,
  take, ltb, leb, ◌==◌, if◌then◌else◌, is_one_of,
}
use esp32_home_display.Text.{Str, str_eq}
use esp32_home_display.Result.{
  Result, ok, err, Exec, pure, raise, lift, gets, ◌>>=◌, and_then, bad_request, type_mismatch,
  after_beyond_before, window_half_given, max_points_without_window, start_beyond_end,
  window_with_paging,
}
use esp32_home_display.Common.{Datetime, validate_mac_address, validate_query_timestamp}
use esp32_home_display.Database.{Sensor, Row, Session}
use esp32_home_display.Ingest.{get_sensor_by_mac}

-- `max(1, ceil(window_seconds / max_points))`, with the window in microseconds
unfoldable pub choose_bucket_seconds : ℕ → ℕ → ℕ
choose_bucket_seconds window max_points =
    max 1 ((window + max_points * 1_000_000 - 1) / (max_points * 1_000_000))

-- `order_by(timestamp.desc())`, by insertion
unfoldable pub insert_latest : Row → List Row → List Row
insert_latest row [] = row ∷ []
insert_latest row (r ∷ rs) =
    if leb r.timestamp row.timestamp then row ∷ r ∷ rs else r ∷ insert_latest row rs

unfoldable pub latest_first : List Row → List Row
unfolding insert_latest
latest_first [] = []
latest_first (row ∷ rows) = insert_latest row (latest_first rows)

abbrev pub select : (Row → Bool) → List Row → List Row
select test [] = []
select test (row ∷ rows) = let rest = select test rows in if test row then row ∷ rest else rest

abbrev pub at_most : ℕ → Option ℕ → Bool
at_most t none = true
at_most t (some before) = leb t before

abbrev pub at_least : ℕ → Option ℕ → Bool
at_least t none = true
at_least t (some after) = leb after t

abbrev pub on_page : Str → Option ℕ → Option ℕ → Row → Bool
on_page mac before after row =
    str_eq row.mac mac && at_most row.timestamp before && at_least row.timestamp after

unfoldable pub fetch_raw_readings : Str → ℕ → Option ℕ → Option ℕ → List Row → List Row
unfolding latest_first
fetch_raw_readings mac limit before after rows =
    take limit (latest_first (select (on_page mac before after) rows))

abbrev pub in_window : Str → ℕ → ℕ → Row → Bool
in_window mac start_ts end_ts row =
    str_eq row.mac mac && leb start_ts row.timestamp && leb row.timestamp end_ts

-- `floor(epoch / bucket_seconds)`: the Unix epoch is day 719162 after 0001-01-01, and all queried
-- timestamps lie after it.
unfoldable pub bucket_of : ℕ → ℕ → ℕ
bucket_of bucket_seconds t = (t - 719_162 * 86_400 * 1_000_000) / (bucket_seconds * 1_000_000)

-- `row_number() over (partition by bucket order by timestamp desc) = 1`, on rows in that order: a row
-- stays if its bucket has no row before it.
unfoldable pub first_of_buckets : ℕ → List ℕ → List Row → List Row
unfolding bucket_of
first_of_buckets bucket_seconds seen [] = []
first_of_buckets bucket_seconds seen (row ∷ rows) =
    let bucket = bucket_of bucket_seconds row.timestamp in
    let rest = first_of_buckets bucket_seconds (bucket ∷ seen) rows in
    if is_one_of bucket seen then rest else row ∷ rest

unfoldable pub fetch_window_readings : Str → ℕ → ℕ → Option ℕ → List Row → List Row
unfolding latest_first choose_bucket_seconds first_of_buckets
fetch_window_readings mac start_ts end_ts none rows =
    latest_first (select (in_window mac start_ts end_ts) rows)
fetch_window_readings mac start_ts end_ts (some max_points) rows =
    let window = max 1_000_000 (end_ts - start_ts) in
    first_of_buckets (choose_bucket_seconds window max_points) []
      (latest_first (select (in_window mac start_ts end_ts) rows))

abbrev pub is_given : Option Datetime → Bool
is_given none = false
is_given (some t) = true

abbrev pub instant_of : Option Datetime → Option ℕ
instant_of none = none
instant_of (some t) = some t.instant

-- Both are given, and the first is later than the second.
abbrev pub is_later : Option Datetime → Option Datetime → Bool
is_later (some a) (some b) = ltb b.instant a.instant
is_later none _ = false
is_later (some a) none = false

-- The parameters of a query, as the handler passes them.
pub record Params : Type 0 where
  pub limit : ℕ
  pub before : Option Datetime
  pub after : Option Datetime
  pub start_ts : Option Datetime
  pub end_ts : Option Datetime
  pub max_points : Option ℕ

abbrev pub same : Bool → Bool → Bool
same true b = b
same false b = not b

abbrev pub is_some : Option ℕ → Bool
is_some none = false
is_some (some n) = true

-- The combinations that are refused, in the order of the checks.
unfoldable pub check_params : Params → Result (Unit {0})
check_params p =
    if is_later p.after p.before
    then err (bad_request after_beyond_before)
    else if not (same (is_given p.start_ts) (is_given p.end_ts))
    then err (bad_request window_half_given)
    else if is_some p.max_points && not (is_given p.start_ts)
    then err (bad_request max_points_without_window)
    else if is_later p.start_ts p.end_ts
    then err (bad_request start_beyond_end)
    else if is_given p.start_ts && (is_given p.before || is_given p.after)
    then err (bad_request window_with_paging)
    else ok tt

-- The four timestamps, validated, in the order of the calls.
unfoldable pub validate_params : ℕ → Params → Result Params
validate_params now p = and_then (validate_query_timestamp now p.before) λ before.
    and_then (validate_query_timestamp now p.after) λ after.
      and_then (validate_query_timestamp now p.start_ts) λ start_ts.
        and_then (validate_query_timestamp now p.end_ts) λ end_ts.
          ok (record p { before = before; after = after; start_ts = start_ts; end_ts = end_ts })

unfoldable pub fetch_rows : Str → Params → List Row → List Row
unfolding fetch_raw_readings fetch_window_readings
fetch_rows mac p rows =
    let page = fetch_raw_readings mac p.limit (instant_of p.before) (instant_of p.after) rows in
    elim p.start_ts [
      | none ↦ page
      | some start_ts ↦ elim p.end_ts [
        | none ↦ page
        | some end_ts ↦ fetch_window_readings mac start_ts.instant end_ts.instant p.max_points rows
      ]
    ]

-- A sensor that is not known has no readings; one of another type is refused.
unfoldable pub fetch_of_sensor : Str → Params → ℕ → Option Sensor → List Row → Result (List Row)
unfolding fetch_rows
fetch_of_sensor mac p expected_type none rows = ok []
fetch_of_sensor mac p expected_type (some sensor) rows =
    if sensor.type == expected_type
    then ok (fetch_rows mac p rows)
    else err (bad_request type_mismatch)

unfoldable pub fetch_readings :
    {D : Type 0} → Session D → ℕ → Str → Params → ℕ → D → Result (List Row)
unfolding validate_params check_params get_sensor_by_mac fetch_of_sensor
fetch_readings db now mac params expected_type d = and_then (validate_mac_address mac) λ mac.
    and_then (validate_params now params) λ p.
      and_then (check_params p)
        λ _. fetch_of_sensor mac p expected_type (get_sensor_by_mac db mac d) (db.readings d)
