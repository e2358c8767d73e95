-- ===== src/History/Options.antt =====
-- tools/switchbot_history_probe.py: the lists of banks and the times of the command line. What
-- `datetime.fromisoformat` reads is a parameter: the epoch in seconds, and whether a timezone is given.
use esp32_home_display.Prelude.{
  ℕ, Bool, true, false, ◌&&◌, ◌||◌, Option, none, some, List, [], ◌∷◌, ◌++◌, ℤ, pos, negsuc, drop,
  leb, ◌==◌, if◌then◌else◌,
}
use esp32_home_display.Text.{Str, codes, str_eq, starts_with, is_empty}
use esp32_home_display.History.{Bytes}
use esp32_home_display.History.Arguments.{
  between, strip, lower, split_commas, parse_int, cons_result,
}

-- `0 <= bank <= 0xFF`
unfoldable pub byte_of : Option ℤ → Option ℕ
byte_of none = none
byte_of (some (pos n)) = if leb n 255 then some n else none
byte_of (some (negsuc n)) = none

unfoldable pub parse_banks : List Str → Option (List ℕ)
unfolding strip parse_int byte_of
parse_banks [] = some []
parse_banks (part ∷ parts) =
    let rest = parse_banks parts in
    if is_empty (strip part) then rest else cons_result (byte_of (parse_int part)) rest

-- The banks that the answer to the start command names, from its third byte on.
unfoldable pub start_banks : Option Bytes → Bytes
start_banks none = []
start_banks (some response) = drop 2 response

unfoldable pub parse_bank_list : Str → Option Bytes → Option (List ℕ)
unfolding strip lower split_commas parse_banks start_banks
parse_bank_list value start_response =
    let raw = strip value in
    if is_empty raw
    then some []
    else if str_eq (lower raw) (codes "start")
    then some (start_banks start_response)
    else parse_banks (split_commas raw)

-- `isdigit`, which the empty text does not pass
unfoldable pub all_digits : Str → Bool
all_digits [] = false
all_digits (c ∷ []) = between b'0' b'9' c
all_digits (c ∷ d ∷ s) = between b'0' b'9' c && all_digits (d ∷ s)

-- `replace("Z", "+00:00").replace("z", "+00:00")`
unfoldable pub utc_offset : Str → Str
utc_offset [] = []
utc_offset (c ∷ s) =
    let rest = utc_offset s in if c == b'Z' || c == b'z' then codes "+00:00" ++ rest else c ∷ rest

unfoldable pub with_timezone : Option (ℤ × Bool) → Option ℤ
with_timezone none = none
with_timezone (some (epoch, true)) = some epoch
with_timezone (some (epoch, false)) = none

unfoldable pub parse_time_arg : (Str → Option (ℤ × Bool)) → Str → Option ℤ
unfolding strip lower all_digits utc_offset with_timezone parse_int
parse_time_arg fromisoformat value =
    let raw = strip value in
    if starts_with (lower raw) (codes "0x") || all_digits (lower raw)
    then parse_int raw
    else with_timezone (fromisoformat (utc_offset raw))

-- The values that are given, in the order of the options.
unfoldable pub supplied : List (Option ℤ) → List ℤ
supplied [] = []
supplied (none ∷ values) = supplied values
supplied (some v ∷ values) = v ∷ supplied values

unfoldable pub only : List ℤ → Option (Option ℤ)
only [] = some none
only (v ∷ []) = some (some v)
only (v ∷ w ∷ vs) = none

-- More than one value is an error.
unfoldable pub resolve_time_sync_epoch : Option ℤ → Option ℤ → Option ℤ → Option (Option ℤ)
unfolding supplied only
resolve_time_sync_epoch epoch time_sync_epoch time_sync_iso =
    only (supplied (epoch ∷ time_sync_epoch ∷ time_sync_iso ∷ []))
