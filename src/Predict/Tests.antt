-- ===== src/Predict/Tests.antt =====
-- A meter that has a day of hourly readings, and weather for these hours and for one to come.
use esp32_home_display.Prelude.{ℕ, zero, suc, ◌*◌, some, List, [], ◌∷◌, ◌+◌}
use esp32_home_display.Text.{Str, codes}
use esp32_home_display.Float.{whole}
use esp32_home_display.Database.{Row}
use esp32_home_display.Weather.{Point, archive}
use esp32_home_display.Predict.{Numerics}

abbrev first_code : Str → ℕ
first_code [] = 0
first_code (c ∷ s) = c

abbrev numerics : Numerics
numerics = record {
  mean = λ vs. whole 20;
  ops = record {
    decimal = λ m k. whole m;
    add = λ x y. x;
    sub = λ x y. x;
    mul = λ x y. x;
    div = λ x y. some x;
    exp = λ x. some x;
  };
  round = λ a k. a;
  hour_angle_sin = λ h. whole h;
  hour_angle_cos = λ h. whole h;
  ridge = λ rows values. some (λ feat. some (whole 120));
  hour_of_text = first_code;
}

-- One reading an hour, and one point an hour, back from an hour.
abbrev a_day : ℕ → List Row
a_day zero = []
a_day (suc k) =
    record {
      sensor_id = 1;
      mac = codes "M";
      timestamp = k * 3_600_000_000;
      values = λ name. some (whole 20);
    }
    ∷ a_day k

abbrev point : ℕ → Point
point k = record { timestamp = k ∷ []; source = archive; values = some (whole 11) ∷ [] }

abbrev a_day_of_weather : ℕ → List Point
a_day_of_weather zero = []
a_day_of_weather (suc k) = point k ∷ a_day_of_weather k

abbrev weather : List Point
weather = point 40 ∷ a_day_of_weather 24

-- The hours from 0 up to a number.
abbrev up_to : ℕ → ℕ → List ℕ
up_to start zero = []
up_to start (suc k) = start ∷ up_to (start + 1) k
