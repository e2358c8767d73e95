-- ===== src/Vesync/Tests.antt =====
-- A humidifier that is brought to its automatic mode and set to 45 percent.
use esp32_home_display.Prelude.{true, some, [], ◌∷◌}
use esp32_home_display.Text.{codes}
use esp32_home_display.Vesync.{Device, Library, replies}
use esp32_home_display.Vesync.Client.{set_target, fetch_state}
use esp32_home_display.Vesync.Closed.{IsClosed}
use esp32_home_display.Vesync.Applied.{Applies}
use esp32_home_display.Vesync.Excused.{FailsExcused}
use esp32_home_display.Vesync.Outcome.{set_target_ends}

abbrev bedroom : Device
bedroom = record {
  cid = codes "c7";
  name = codes "Bedroom";
  device_type = codes "LUH";
  mist_modes = codes "auto" ∷ codes "manual" ∷ [];
}

abbrev cloud : Library
cloud = record {
  answers = λ t c. replies true;
  humidifiers = λ t. bedroom ∷ [];
  state_of = λ t d. record { auto_target_humidity = some 40; mode = codes "manual" };
}

set_target_ends_example :
    IsClosed cloud (set_target cloud (codes "c7") true 45 []).1
    × IsClosed cloud (fetch_state cloud (codes "c7") true []).1
    × Applies cloud (codes "c7") true 45 (set_target cloud (codes "c7") true 45 [])
    × FailsExcused cloud (codes "c7") (set_target cloud (codes "c7") true 45 [])
    × FailsExcused cloud (codes "c7") (fetch_state cloud (codes "c7") true [])
set_target_ends_example = set_target_ends cloud (codes "c7") true 45
