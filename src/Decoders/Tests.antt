-- ===== src/Decoders/Tests.antt =====
-- An entry of a plant at -0.3 degrees, read back.
use esp32_home_display.Prelude.{◌≡◌, true, some, [], ◌∷◌, negsuc, arith, All}
use esp32_home_display.Decoders.{HistoryEntry, parse_history_entry, read_entries}
use esp32_home_display.Decoders.Signed.{
  IsRecent, stored_entry, parse_history_entry_round_trip, read_entries-IsRecent,
}

abbrev frosty : HistoryEntry
frosty = record {
  ts = 1000;
  temperature_tenths = negsuc 2;
  lux = 70_000;
  moisture_pct = 33;
  conductivity_us_cm = 400;
}

parse_history_entry_round_trip_example :
    parse_history_entry (stored_entry frosty 0 0 0) ≡ some frosty
parse_history_entry_round_trip_example =
    parse_history_entry_round_trip frosty 0 0 0 (omega arith) (omega arith) (omega arith)
      (omega arith) (omega arith)

read_entries-IsRecent_example :
    All (IsRecent 1500 600) (read_entries 1500 600 true (stored_entry frosty 0 0 0 ∷ []))
read_entries-IsRecent_example = read_entries-IsRecent 1500 600 true (stored_entry frosty 0 0 0 ∷ [])
