-- ===== src/Predict.antt =====
-- server/app/predict.py: the forecast of the temperature and the humidity at each meter. Python's
-- floating-point operations and the ridge regression are parameters; an hour is the number of hours
-- since 0001-01-01, UTC.
pub mod Fit
pub mod Route
pub mod Hours
pub mod Ascending
pub mod Training
pub mod Range
pub mod Answer
mod Tests
use esp32_home_display.Prelude.{
  ℕ, ◌+◌, ◌-◌, ◌*◌, ◌/◌, ◌%◌, ◌==◌, Bool, true, false, Option, none, some, List, [], ◌∷◌, ◌++◌,
  length, leb, ltb, if◌then◌else◌, is_one_of,
}
use esp32_home_display.Text.{Str, codes, str_eq}
use esp32_home_display.Float.{Float, flt, whole}
use esp32_home_display.Arithmetic.{Arithmetic}
use esp32_home_display.Database.{Row}
use esp32_home_display.Sync.{sorted}
use esp32_home_display.Query.{fetch_window_readings}
use esp32_home_display.Weather.{Point, hourly_vars}

-- `mean v` is `sum(v) / len(v)`, and `hour_angle_sin h` the sine of 2 pi h / 24; `ridge` fits the targets
-- of the rows. It is none where it raises, and so is the model that it gives.
pub record Numerics : Type 0 where
  pub mean : List Float → Float
  pub ops : Arithmetic
  pub round : Float → ℕ → Float
  pub hour_angle_sin : ℕ → Float
  pub hour_angle_cos : ℕ → Float
  pub ridge : List (List Float) → List Float → Option (List Float → Option Float)
  pub hour_of_text : Str → ℕ

-- A dictionary by hours: `get`, `d[h] = v`, `setdefault(h, []).append(v)` and the keys.
abbrev pub ByHour : Type 0 → Type 0
ByHour V = List (ℕ × V)

module _ {V : Type 0} where
  unfoldable pub get_hour : ByHour V → ℕ → Option V
  get_hour [] h = none
  get_hour ((k, v) ∷ d) h = if k == h then some v else get_hour d h

  unfoldable pub put_hour : ByHour V → ℕ → V → ByHour V
  put_hour [] h v = (h, v) ∷ []
  put_hour ((k, w) ∷ d) h v = if k == h then (h, v) ∷ d else (k, w) ∷ put_hour d h v

  unfoldable pub append_hour : ByHour (List V) → ℕ → V → ByHour (List V)
  append_hour [] h v = (h, v ∷ []) ∷ []
  append_hour ((k, vs) ∷ d) h v =
      if k == h then (k, vs ++ v ∷ []) ∷ d else (k, vs) ∷ append_hour d h v

  unfoldable pub hours : ByHour V → List ℕ
  hours [] = []
  hours ((k, v) ∷ d) = k ∷ hours d

-- `_round_hour`, of a time in microseconds
unfoldable pub round_hour : ℕ → ℕ
round_hour instant = instant / 3_600_000_000

unfoldable pub append_value : Option Float → ℕ → ByHour (List Float) → ByHour (List Float)
unfolding append_hour
append_value none h d = d
append_value (some v) h d = append_hour d h v

-- The loop of `_hourly_avgs`, over one column
unfoldable pub hourly_values : Str → ByHour (List Float) → List Row → ByHour (List Float)
unfolding append_value round_hour
hourly_values name d [] = d
hourly_values name d (row ∷ rows) =
    hourly_values name (append_value (row.values name) (round_hour row.timestamp) d) rows

unfoldable pub means : Numerics → ByHour (List Float) → ByHour Float
means n [] = []
means n ((h, vs) ∷ d) = (h, n.mean vs) ∷ means n d

unfoldable pub hourly_avgs : Numerics → List Row → ByHour Float × ByHour Float
unfolding means hourly_values
hourly_avgs n rows = (
  means n (hourly_values (codes "temperature_c") [] rows),
  means n (hourly_values (codes "humidity_pct") [] rows),
)

-- `OmEntry`
pub record OmEntry : Type 0 where
  pub outdoor : Float
  pub radiation : Float
  pub cloud : Float
  pub humidity : Float

unfoldable pub or_entry : Option OmEntry → OmEntry → OmEntry
or_entry none entry = entry
or_entry (some lagged) entry = lagged

-- The outdoor temperature and the radiation some hours earlier, or those of the entry itself.
unfoldable pub lag_features : OmEntry → ℕ → ByHour OmEntry → ℕ → List Float
unfolding get_hour or_entry
lag_features entry hour om lag =
    let lagged = or_entry (get_hour om (hour - lag)) entry in lagged.outdoor ∷ lagged.radiation ∷ []

unfoldable pub features : Numerics → OmEntry → ℕ → ByHour OmEntry → List Float
unfolding lag_features
features n entry hour om =
    entry.outdoor
    ∷ entry.radiation
    ∷ entry.cloud
    ∷ entry.humidity
    ∷ n.hour_angle_sin (hour % 24)
    ∷ n.hour_angle_cos (hour % 24)
    ∷ (lag_features entry hour om 1
        ++ (lag_features entry hour om 2 ++ lag_features entry hour om 3))

-- The rows to learn from: the features, and the two targets.
pub record TrainingRow : Type 0 where
  pub feat : List Float
  pub temperature : Float
  pub humidity : Float

unfoldable pub add_row :
    List Float → Option Float → Option Float → List TrainingRow → List TrainingRow
add_row feat none humidity rest = rest
add_row feat (some temperature) none rest = rest
add_row feat (some temperature) (some humidity) rest =
    record { feat = feat; temperature = temperature; humidity = humidity } ∷ rest

unfoldable pub rows_for :
    Numerics → ByHour Float → ByHour Float → ByHour OmEntry → List ℕ → List TrainingRow
unfolding add_row features get_hour
rows_for n avg_temp avg_hum om [] = []
rows_for n avg_temp avg_hum om (hour ∷ rest) =
    let others = rows_for n avg_temp avg_hum om rest in
    elim (get_hour om hour) [
      | none ↦ others
      | some entry ↦
          add_row (features n entry hour om) (get_hour avg_temp hour) (get_hour avg_hum hour) others
    ]

-- `set(…) & set(…)`, on the keys
unfoldable pub common : List ℕ → List ℕ → List ℕ
common [] ks = []
common (h ∷ hs) ks = let rest = common hs ks in if is_one_of h ks then h ∷ rest else rest

unfoldable pub build_xy : Numerics → ByHour Float → ByHour Float → ByHour OmEntry → List TrainingRow
unfolding rows_for common hours sorted
build_xy n avg_temp avg_hum om =
    rows_for n avg_temp avg_hum om (sorted (common (hours avg_temp) (hours avg_hum)))

unfoldable pub feats : List TrainingRow → List (List Float)
feats [] = []
feats (r ∷ rs) = r.feat ∷ feats rs

unfoldable pub targets : (TrainingRow → Float) → List TrainingRow → List Float
targets f [] = []
targets f (r ∷ rs) = f r ∷ targets f rs
