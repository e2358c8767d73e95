-- ===== src/History/Tests.antt =====
-- A meter with ten samples, one for each minute from epoch 1000 on.
use esp32_home_display.Prelude.{
  ◌+◌, ◌*◌, ◌≡◌, ◌≤◌, ◌<◌, refl, true, some, none, List, [], ◌∷◌, pos, arith, get_elem?, drop, take,
  sub_ℕ,
}
use esp32_home_display.History.Arguments.{parse_hex_blob, hex_label}
use esp32_home_display.History.Labels.{parse_hex_blob-hex_label}
use esp32_home_display.History.{
  Bytes, Metadata, PageRequest, DecodedSample, from_bytes, build_page_command, parse_metadata,
  decode_history_payload,
}
use esp32_home_display.History.Plan.{Args, planned, unfinished, page_loop, build_page_plan}
use esp32_home_display.History.Wire.{
  metadata_answer, parse_metadata_round_trip, build_page_command_places,
  decode_history_payload_numbered,
}
use esp32_home_display.History.Pages.{is_requested, build_page_plan_covers, page_loop-unfinished}

abbrev meter : Metadata
meter = record { start_epoch = 1000; end_epoch = 1600; end_index = 10; interval_seconds = 60 }

abbrev range_args : Args
range_args = record {
  start_index = none;
  end_index = none;
  start_epoch = some (pos 1100);
  end_epoch = some (pos 1300);
  pages = 5;
  page_count = 6;
}

parse_metadata_round_trip_example : parse_metadata (metadata_answer meter (7 ∷ [])) ≡ some meter
parse_metadata_round_trip_example =
    parse_metadata_round_trip meter (7 ∷ []) (omega arith) (omega arith) (omega arith) (omega arith)

abbrev page_command : Bytes
page_command = 0x57 ∷ 0x0f ∷ 0x3c ∷ 2 ∷ 0 ∷ 1 ∷ 0x30 ∷ 0x92 ∷ 6 ∷ 9 ∷ []

build_page_command_places_example :
    (get_elem? page_command 3 ≡ some 2)
    × (from_bytes 0 (take 4 (drop 4 page_command)) ≡ 77_970)
    × (get_elem? page_command 8 ≡ some 6)
    × (drop 9 page_command ≡ 9 ∷ [])
    × (2 < 256)
    × (1 ≤ 6)
    × (6 < 256)
unfolding build_page_command
build_page_command_places_example = build_page_command_places 77_970 6 2 (9 ∷ []) page_command refl

abbrev payload : Bytes
payload = 0x01 ∷ 0x95 ∷ 40 ∷ 0x37 ∷ 0x05 ∷ 41 ∷ []

abbrev second_sample : DecodedSample
second_sample = record {
  index = 4;
  epoch = 1240;
  temperature_tenths = sub_ℕ 0 57;
  humidity_pct = 41;
}

decode_history_payload_numbered_example :
    (second_sample.index ≡ 3 + 1) × (second_sample.epoch ≡ 1000 + (3 + 1) * 60)
unfolding decode_history_payload
decode_history_payload_numbered_example =
    decode_history_payload_numbered payload 3 meter 1 second_sample refl

build_page_plan_covers_example :
    (requests : List PageRequest) × (build_page_plan 11 range_args meter ≡ planned requests)
    × (is_requested 4 requests ≡ true)
build_page_plan_covers_example =
    build_page_plan_covers range_args meter (pos 1100) (pos 1300) 4 refl refl refl refl
      (omega arith) (omega arith) (omega arith) refl refl

page_loop-unfinished_example : page_loop 1000 0 3 10 ≡ unfinished
page_loop-unfinished_example = page_loop-unfinished 1000 3 10 (omega arith)

parse_hex_blob-hex_label_example :
    parse_hex_blob (hex_label (0x57 ∷ 0x0f ∷ 0xee ∷ [])) ≡ some (0x57 ∷ 0x0f ∷ 0xee ∷ [])
parse_hex_blob-hex_label_example = parse_hex_blob-hex_label (0x57 ∷ 0x0f ∷ 0xee ∷ []) (omega arith)
