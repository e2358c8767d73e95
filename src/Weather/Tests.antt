-- ===== src/Weather/Tests.antt =====
-- A day for which the archive and the forecast both know an hour.
use esp32_home_display.Prelude.{◌≡◌, none, some, Option, [], ◌∷◌}
use esp32_home_display.Text.{Str, codes}
use esp32_home_display.Weather.{Hourly, MeteoRequest, gather, merged}
use esp32_home_display.Weather.Merge.{first_at, preferred}
use esp32_home_display.Weather.Sorted.{Ascending, merged-Ascending}

abbrev morning : Hourly
morning = record {
  time = codes "2026-05-02T08:00" ∷ codes "2026-05-02T07:00" ∷ [];
  column = λ name. none;
}

abbrev open_meteo : MeteoRequest → Option Hourly
open_meteo request = some morning

merged-Ascending_example :
    Ascending (merged open_meteo (codes "45.737") (codes "7.321") 20 18 22)
    × ((t : Str)
        → first_at t (merged open_meteo (codes "45.737") (codes "7.321") 20 18 22)
          ≡ preferred t (gather open_meteo (codes "45.737") (codes "7.321") 20 18 22))
merged-Ascending_example = merged-Ascending open_meteo (codes "45.737") (codes "7.321") 20 18 22
