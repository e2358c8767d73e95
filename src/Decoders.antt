-- ===== src/Decoders.antt =====
-- tools/switchbot.py and tools/xiaomi.py: the decoders of what the sensors broadcast and answer. A
-- byte is a number below 256; temperatures are in tenths of a degree; an absent result stands for
-- `None` or an exception.
pub mod Signed
pub mod Scan
mod Tests
use esp32_home_display.Prelude.{
  ℕ, zero, suc, ◌+◌, ◌-◌, ◌*◌, ◌/◌, ◌%◌, ◌^◌, ◌≡◌, Bool, true, false, ◌&&◌, ◌||◌, not, Option, none,
  some, List, [], ◌∷◌, ◌++◌, ℤ, pos, sub_ℕ, length, drop, take, get_elem?, ltb, leb, ◌==◌,
  if◌then◌else◌,
}
use esp32_home_display.Text.{Str, codes, upper, is_empty}
use esp32_home_display.History.{Bytes, decode_temperature}

-- `data[i]`, where the length has been checked
abbrev pub byte_at : Bytes → ℕ → ℕ
byte_at [] i = 0
byte_at (b ∷ bs) zero = b
byte_at (b ∷ bs) (suc i) = byte_at bs i

-- `int.from_bytes(data, "little")`, and the same with `signed=True`
unfoldable pub from_little : Bytes → ℕ
from_little [] = 0
from_little (b ∷ bs) = b + 256 * from_little bs

unfoldable pub from_little_signed : Bytes → ℤ
unfolding from_little
from_little_signed bs =
    let n = from_little bs in
    if ltb (2 * n) (256 ^ length bs) then pos n else sub_ℕ n (256 ^ length bs)

unfoldable pub normalize_mac : Option Str → Option Str
normalize_mac none = none
normalize_mac (some mac) = if is_empty mac then none else some (upper mac)

unfoldable pub is_meter_payload : Bytes → Bool
is_meter_payload payload = leb 12 (length payload) && not (byte_at payload 6 == 0x00)

pub record MeterSample : Type 0 where
  pub temperature_tenths : ℤ
  pub humidity_pct : ℕ

unfoldable pub decode_meter : Bytes → Option MeterSample
unfolding decode_temperature
decode_meter payload =
    if ltb (length payload) 11
    then none
    else some (record {
      temperature_tenths = decode_temperature (byte_at payload 9) (byte_at payload 8 % 16);
      humidity_pct = byte_at payload 10 % 128;
    })

pub data Passive : Type 0 where
  temperature_tenths : ℤ → Passive
  lux moisture_pct conductivity_us_cm : ℕ → Passive

-- `payload[15:15 + length]` may be shorter than the length that the payload names.
unfoldable pub decode_object : ℕ → ℕ → Bytes → Option Passive
unfolding from_little from_little_signed
decode_object obj_id length_named object =
    if obj_id == 0x1004 && length_named == 2
    then some (temperature_tenths (from_little_signed object))
    else if obj_id == 0x1007 && length_named == 3
    then some (lux (from_little object))
    else if obj_id == 0x1008 && length_named == 1
    then elim object [ [] ↦ none | ◌∷◌ b bs ↦ some (moisture_pct b) ]
    else if obj_id == 0x1009 && length_named == 2
    then some (conductivity_us_cm (from_little object))
    else none

unfoldable pub decode_passive_payload : Bytes → Option Passive
unfolding decode_object
decode_passive_payload payload =
    let length_named = byte_at payload 14 in
    if ltb (length payload) 15
    then none
    else decode_object (byte_at payload 12 + 256 * byte_at payload 13) length_named
        (take length_named (drop 15 payload))

pub record PlantSample : Type 0 where
  pub temperature_tenths : ℤ
  pub lux : ℕ
  pub moisture_pct : ℕ
  pub conductivity_us_cm : ℕ

unfoldable pub parse_realtime : Bytes → Option PlantSample
unfolding from_little
parse_realtime payload =
    if ltb (length payload) 10
    then none
    else some (record {
      temperature_tenths = pos (byte_at payload 0);
      lux = from_little (take 4 (drop 3 payload));
      moisture_pct = byte_at payload 7;
      conductivity_us_cm = from_little (take 2 (drop 8 payload));
    })

pub record HistoryEntry : Type 0 where
  pub ts : ℕ
  pub temperature_tenths : ℤ
  pub lux : ℕ
  pub moisture_pct : ℕ
  pub conductivity_us_cm : ℕ

-- An entry whose time is all ones is empty, and so is one that is all ones.
unfoldable pub parse_history_entry : Bytes → Option HistoryEntry
unfolding from_little from_little_signed
parse_history_entry payload =
    let ts = from_little (take 4 payload) in
    if not (length payload == 16)
    then none
    else if ts == 0xFFFFFFFF
    then none
    else some (record {
      ts = ts;
      temperature_tenths = from_little_signed (take 2 (drop 4 payload));
      lux = from_little (take 4 (drop 7 payload));
      moisture_pct = byte_at payload 11;
      conductivity_us_cm = from_little (take 2 (drop 12 payload));
    })

-- The body of the loop of `read_history`, with what the later turns give: an entry from the future is
-- passed over, and one that is too old ends the loop.
unfoldable pub add_entry :
    ℕ → ℕ → Bool → Option HistoryEntry → List HistoryEntry → List HistoryEntry
add_entry device_now seconds_ago stop_on_empty none rest = if stop_on_empty then [] else rest
add_entry device_now seconds_ago stop_on_empty (some e) rest =
    if ltb device_now e.ts
    then rest
    else if ltb seconds_ago (device_now - e.ts)
    then []
    else e ∷ rest

-- The loop over the answers of the device in turn, without the waiting.
unfoldable pub read_entries : ℕ → ℕ → Bool → List Bytes → List HistoryEntry
unfolding parse_history_entry add_entry
read_entries device_now seconds_ago stop_on_empty [] = []
read_entries device_now seconds_ago stop_on_empty (raw ∷ raws) =
    add_entry device_now seconds_ago stop_on_empty (parse_history_entry raw)
      (read_entries device_now seconds_ago stop_on_empty raws)
