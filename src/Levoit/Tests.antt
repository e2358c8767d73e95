-- ===== src/Levoit/Tests.antt =====
-- A humidifier at 45 % that should be at 50 %.
use esp32_home_display.Prelude.{ℕ, ◌≡◌, refl, true, false, ◌||◌, none, some, [], ◌∷◌, pos, arith}
use esp32_home_display.Text.{codes}
use esp32_home_display.Float.{whole}
use esp32_home_display.Arithmetic.{Arithmetic}
use esp32_home_display.Levoit.{Limits, current_ah_of, target_relative_humidity}
use esp32_home_display.Levoit.Runner.{
  entry, sensors, Response, VeSyncClient, LevoitConfig, run_once,
}
use esp32_home_display.Levoit.Decision.{raises}
use esp32_home_display.Levoit.Run.{Effect, run_once-Effect}

-- Operations that give their first argument.
abbrev plain : Arithmetic
plain = record {
  decimal = λ m k. whole m;
  add = λ x y. x;
  sub = λ x y. x;
  mul = λ x y. x;
  div = λ x y. some x;
  exp = λ x. some x;
}

abbrev limits : Limits
limits = record {
  minimum_humidity = 40;
  maximum_humidity = 60;
  humidity_change_threshold = whole 1;
}

-- The device is its target.
abbrev device : VeSyncClient ℕ
device = record {
  fetch_state =
      λ w. (some (record { current_target_humidity = some (pos w); is_in_auto_mode = true }), w);
  set_humidity = λ c w. (true, c);
}

abbrev cfg : LevoitConfig
cfg = record {
  switchbot_mac = some (codes "aa:bb:cc:dd:ee:06");
  target_absolute_humidity = some (whole 50);
  server_base_url = some (codes "https://home");
  limits = limits;
}

abbrev response : Response
response = sensors (
    entry (codes "AA:BB:CC:DD:EE:06") (some (codes "now")) (some (whole 21)) (some (whole 40)) ∷ [])

-- The formulas give a value here.
no_exception :
    (raises (current_ah_of plain (whole 21) none)
      || raises (target_relative_humidity plain (whole 21) (whole 50)))
    ≡ false
unfolding current_ah_of target_relative_humidity
no_exception = refl

run_once-Effect_example :
    Effect limits false (some device) 45 (run_once plain cfg false response (some device) 45).1
run_once-Effect_example = run_once-Effect plain cfg false response (some device) 45 (omega arith)
