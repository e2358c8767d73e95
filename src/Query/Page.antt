-- ===== src/Query/Page.antt =====
-- What an answer to a query holds: rows that were asked for, the newest first.
use esp32_home_display.Prelude.{
  Option-cases, ℕ, ◌≡◌, refl, sym, inl, inr, true, Option, none, some, List, [], ◌∷◌, arith, All,
  All-mono,
}
use esp32_home_display.Text.{Str, str_eq, upper}
use esp32_home_display.Result.{ok}
use esp32_home_display.Result.Laws.{Result-cases}
use esp32_home_display.Common.{
  Datetime, validate_mac_address, validate_instant, validate_query_timestamp,
}
use esp32_home_display.Database.{Sensor, Row, Session}
use esp32_home_display.Ingest.{get_sensor_by_mac}
use esp32_home_display.Query.{
  Params, at_most, at_least, on_page, in_window, fetch_raw_readings, fetch_window_readings,
  check_params, validate_params, fetch_rows, fetch_of_sensor, fetch_readings, instant_of,
}
use esp32_home_display.Query.Order.{
  IsLatestFirst, fetch_raw_readings-IsLatestFirst, All-fetch_raw_readings,
  fetch_window_readings-IsLatestFirst, All-fetch_window_readings,
}

-- What is asked for, with the MAC address in the case in which it is stored.
abbrev pub IsAsked : Str → Params → Row → Type 0
IsAsked mac p row =
    (str_eq row.mac mac ≡ true)
    × (at_most row.timestamp (instant_of p.before) ≡ true)
    × (at_least row.timestamp (instant_of p.after) ≡ true)
    × (at_least row.timestamp (instant_of p.start_ts) ≡ true)
    × (at_most row.timestamp (instant_of p.end_ts) ≡ true)

no_window : (p : Params) → check_params p ≡ ok tt → p.start_ts ≡ none → p.end_ts ≡ none
unfolding check_params
no_window p h e = elim (Option-cases p.end_ts) [ inl f ↦ f | inr (b, f) ↦ absurd (ground arith) ]

whole_window :
    (p : Params) (a : Datetime)
    → check_params p ≡ ok tt
    → p.start_ts ≡ some a
    → (b : Datetime) × (p.end_ts ≡ some b)
unfolding check_params
whole_window p a h e = elim (Option-cases p.end_ts) [
  | inl f ↦ absurd (ground arith)
  | inr (b, f) ↦ (b, f)
]

no_paging :
    (p : Params) (a : Datetime)
    → check_params p ≡ ok tt
    → p.start_ts ≡ some a
    → (p.before ≡ none) × (p.after ≡ none)
unfolding check_params
no_paging p a h e = elim (Option-cases p.before) [
  | inl f ↦ elim (Option-cases p.after) [ inl g ↦ (f, g) | inr (c, g) ↦ absurd (ground arith) ]
  | inr (b, f) ↦ absurd (ground arith)
]

on_page-IsAsked :
    (mac : Str) (p : Params) (r : Row)
    → p.start_ts ≡ none
    → p.end_ts ≡ none
    → on_page mac (instant_of p.before) (instant_of p.after) r ≡ true
    → IsAsked mac p r
on_page-IsAsked mac p r e f h =
    (ground arith, ground arith, ground arith, ground arith, ground arith)

in_window-IsAsked :
    (mac : Str) (p : Params) (a b : Datetime) (r : Row)
    → p.start_ts ≡ some a
    → p.end_ts ≡ some b
    → (p.before ≡ none) × (p.after ≡ none)
    → in_window mac a.instant b.instant r ≡ true
    → IsAsked mac p r
in_window-IsAsked mac p a b r e f g h =
    (ground arith, ground (arith, g.0), ground (arith, g.1), ground arith, ground arith)

fetch_rows_paged :
    (mac : Str) (p : Params) (rows : List Row)
    → p.start_ts ≡ none
    → fetch_rows mac p rows
      ≡ fetch_raw_readings mac p.limit (instant_of p.before) (instant_of p.after) rows
unfolding fetch_rows
fetch_rows_paged mac p rows e = rw e refl

fetch_rows_windowed :
    (mac : Str) (p : Params) (a b : Datetime) (rows : List Row)
    → p.start_ts ≡ some a
    → p.end_ts ≡ some b
    → fetch_rows mac p rows ≡ fetch_window_readings mac a.instant b.instant p.max_points rows
unfolding fetch_rows
fetch_rows_windowed mac p a b rows e f = rw (e, f) refl

fetch_rows-IsAsked :
    (mac : Str) (p : Params) (rows : List Row)
    → check_params p ≡ ok tt
    → All (IsAsked mac p) (fetch_rows mac p rows) × IsLatestFirst (fetch_rows mac p rows)
fetch_rows-IsAsked mac p rows h = elim (Option-cases p.start_ts) [
  | inl e ↦
      let before = instant_of p.before in
      let after = instant_of p.after in
      rw (fetch_rows_paged mac p rows e) (
        All-mono (λ r. on_page mac before after r ≡ true) (IsAsked mac p)
            (λ r k. on_page-IsAsked mac p r e (no_window p h e) k)
            (fetch_raw_readings mac p.limit before after rows)
            (All-fetch_raw_readings mac p.limit before after rows),
        fetch_raw_readings-IsLatestFirst mac p.limit before after rows,
      )
  | inr (a, e) ↦
      let (b, f) = whole_window p a h e in
      rw (fetch_rows_windowed mac p a b rows e f) (
        All-mono (λ r. in_window mac a.instant b.instant r ≡ true) (IsAsked mac p)
            (λ r k. in_window-IsAsked mac p a b r e f (no_paging p a h e) k)
            (fetch_window_readings mac a.instant b.instant p.max_points rows)
            (All-fetch_window_readings mac a.instant b.instant p.max_points rows),
        fetch_window_readings-IsLatestFirst mac a.instant b.instant p.max_points rows,
      )
]

abbrev IsSameQuery : Params → Params → Type 0
IsSameQuery p q =
    (instant_of p.before ≡ instant_of q.before)
    × (instant_of p.after ≡ instant_of q.after)
    × (instant_of p.start_ts ≡ instant_of q.start_ts)
    × (instant_of p.end_ts ≡ instant_of q.end_ts)

validate_query_timestamp-instant_of :
    (now : ℕ) (t u : Option Datetime)
    → validate_query_timestamp now t ≡ ok u
    → instant_of u ≡ instant_of t
unfolding validate_query_timestamp validate_instant
validate_query_timestamp-instant_of now none u h = ground arith
validate_query_timestamp-instant_of now (some t) u h = ground arith

validate_params-IsSameQuery :
    (now : ℕ) (p q : Params) → validate_params now p ≡ ok q → IsSameQuery q p
unfolding validate_params
validate_params-IsSameQuery now p q h =
    elim (Result-cases (validate_query_timestamp now p.before)) [
      | inr (x, e) ↦ absurd (ground arith)
      | inl (b, e) ↦ elim (Result-cases (validate_query_timestamp now p.after)) [
        | inr (x, f) ↦ absurd (ground arith)
        | inl (a, f) ↦ elim (Result-cases (validate_query_timestamp now p.start_ts)) [
          | inr (x, g) ↦ absurd (ground arith)
          | inl (s, g) ↦ elim (Result-cases (validate_query_timestamp now p.end_ts)) [
            | inr (x, k) ↦ absurd (ground arith)
            | inl (t, k) ↦ (
              ground (arith, validate_query_timestamp-instant_of now p.before b e),
              ground (arith, validate_query_timestamp-instant_of now p.after a f),
              ground (arith, validate_query_timestamp-instant_of now p.start_ts s g),
              ground (arith, validate_query_timestamp-instant_of now p.end_ts t k),
            )
          ]
        ]
      ]
    ]

IsAsked-same :
    (mac : Str) (p q : Params) (r : Row) → IsSameQuery q p → IsAsked mac q r → IsAsked mac p r
IsAsked-same mac p q r e h = rw (sym e.0, sym e.1, sym e.2, sym e.3) h

validate_mac_address-upper : (mac m : Str) → validate_mac_address mac ≡ ok m → m ≡ upper mac
unfolding validate_mac_address
validate_mac_address-upper mac m h = ground arith

fetch_of_sensor-IsAsked :
    (m mac : Str) (p q : Params) (type : ℕ) (s : Option Sensor) (stored rows : List Row)
    → m ≡ mac
    → IsSameQuery q p
    → check_params q ≡ ok tt
    → fetch_of_sensor m q type s stored ≡ ok rows
    → All (IsAsked mac p) rows × IsLatestFirst rows
unfolding fetch_of_sensor
fetch_of_sensor-IsAsked m mac p q type none stored [] e f g h = (tt, tt)
fetch_of_sensor-IsAsked m mac p q type none stored (r ∷ rows) e f g h = absurd (ground arith)
fetch_of_sensor-IsAsked m mac p q type (some s) stored rows e f g h =
    let asked = fetch_rows-IsAsked m q stored g in
    let fetched : fetch_rows m q stored ≡ rows = ground arith in
    (
      rw (sym fetched, sym e)
          (All-mono (IsAsked m q) (IsAsked m p) (λ r k. IsAsked-same m p q r f k)
            (fetch_rows m q stored) asked.0),
      rw (sym fetched) asked.1,
    )

-- An answer to a query holds only rows of the sensor that lie in the range that was asked for, from
-- the newest to the oldest.
pub fetch_readings-IsAsked :
    {D : Type 0} (db : Session D) (now : ℕ) (mac : Str) (p : Params) (type : ℕ) (d : D)
    (rows : List Row)
    → fetch_readings db now mac p type d ≡ ok rows
    → All (IsAsked (upper mac) p) rows × IsLatestFirst rows
unfolding fetch_readings
fetch_readings-IsAsked db now mac p type d rows h = elim (Result-cases (validate_mac_address mac)) [
  | inr (x, e) ↦ absurd (ground arith)
  | inl (m, e) ↦ elim (Result-cases (validate_params now p)) [
    | inr (x, f) ↦ absurd (ground arith)
    | inl (q, f) ↦ elim (Result-cases (check_params q)) [
      | inr (x, g) ↦ absurd (ground arith)
      | inl (tt, g) ↦
          let same_m = validate_mac_address-upper mac m e in
          fetch_of_sensor-IsAsked m (upper mac) p q type (get_sensor_by_mac db m d) (db.readings d)
            rows same_m (validate_params-IsSameQuery now p q f) g (ground arith)
    ]
  ]
]
