-- ===== src/History.antt =====
-- tools/switchbot_history_probe.py: the commands and answers of a meter's history. A byte is a number
-- below 256, temperatures are in tenths of a degree, and an absent result stands for an exception. A
-- quotient of seconds is exact: the source's float is rounded too little to change its floor or its
-- ceiling.
pub mod Plan
pub mod Wire
pub mod Pages
pub mod Arguments
pub mod Labels
pub mod Options
mod Tests
use Prim.Native.Nat.{min, max}
use esp32_home_display.Prelude.{
  ℕ, zero, suc, ◌+◌, ◌-◌, ◌*◌, ◌/◌, ◌%◌, ◌≡◌, Bool, true, false, ◌&&◌, ◌||◌, not, Option, none,
  some, List, [], ◌∷◌, ◌++◌, ℤ, pos, negsuc, sub_ℕ, length, drop, take, ltb, leb, leb_ℤ, ltb_ℤ,
  ◌==◌, if◌then◌else◌, is_one_of,
}

abbrev pub Bytes : Type 0
Bytes = List ℕ

pub record Metadata : Type 0 where
  pub start_epoch : ℕ
  pub end_epoch : ℕ
  pub end_index : ℕ
  pub interval_seconds : ℕ

pub record PageRequest : Type 0 where
  pub index : ℕ
  pub count : ℕ

pub record DecodedSample : Type 0 where
  pub index : ℕ
  pub epoch : ℕ
  pub temperature_tenths : ℤ
  pub humidity_pct : ℕ

-- `int.to_bytes(n, "big")` for 2 and 4 bytes
unfoldable pub u16_be : ℕ → Bytes
u16_be n = n / 256 % 256 ∷ n % 256 ∷ []

unfoldable pub u32_be : ℕ → Bytes
u32_be n = n / 16_777_216 % 256 ∷ n / 65_536 % 256 ∷ n / 256 % 256 ∷ n % 256 ∷ []

-- `int.from_bytes(data, "big")`, with what the bytes before gave
unfoldable pub from_bytes : ℕ → Bytes → ℕ
from_bytes before [] = before
from_bytes before (b ∷ bs) = from_bytes (before * 256 + b) bs

-- `int.to_bytes` raises if the number does not fit.
unfoldable pub build_time_sync_command : ℕ → Option Bytes
unfolding u32_be
build_time_sync_command epoch =
    if ltb epoch 4_294_967_296
    then some (0x57 ∷ 0x00 ∷ 0x05 ∷ 0x03 ∷ 0x0d ∷ 0x00 ∷ 0x00 ∷ 0x00 ∷ 0x00 ∷ u32_be epoch)
    else none

unfoldable pub build_start_command : Bytes → Bytes
build_start_command extra = 0x57 ∷ 0x0f ∷ 0x3a ∷ extra

unfoldable pub build_metadata_command : ℕ → Bytes → Option Bytes
build_metadata_command bank extra =
    if ltb bank 256 then some (0x57 ∷ 0x0f ∷ 0x3b ∷ bank ∷ extra) else none

unfoldable pub build_page_command : ℕ → ℕ → ℕ → Bytes → Option Bytes
unfolding u32_be
build_page_command index count bank extra =
    if ltb index 4_294_967_296
    then if leb 1 count && ltb count 256
      then if ltb bank 256
        then some (0x57 ∷ 0x0f ∷ 0x3c ∷ bank ∷ u32_be index ++ count ∷ extra)
        else none
      else none
    else none

unfoldable pub parse_metadata : Bytes → Option Metadata
unfolding from_bytes
parse_metadata [] = none
parse_metadata (first ∷ rest) =
    if ltb (length rest) 14 || not (first == 0x01)
    then none
    else some (record {
      start_epoch = from_bytes 0 (take 4 rest);
      end_epoch = from_bytes 0 (take 4 (drop 4 rest));
      end_index = from_bytes 0 (take 4 (drop 8 rest));
      interval_seconds = from_bytes 0 (take 2 (drop 12 rest));
    })

-- The high bit set means a positive temperature; the low seven bits are the integer part.
unfoldable pub decode_temperature : ℕ → ℕ → ℤ
decode_temperature raw_temp decimal =
    let tenths = raw_temp % 128 * 10 + decimal in
    if leb 128 (raw_temp % 256) then pos tenths else sub_ℕ 0 tenths

unfoldable pub sample_of : Metadata → ℕ → ℕ → ℕ → ℕ → DecodedSample
unfolding decode_temperature
sample_of metadata index raw_t raw_h dec = record {
  index = index;
  epoch = metadata.start_epoch + index * metadata.interval_seconds;
  temperature_tenths = decode_temperature raw_t dec;
  humidity_pct = raw_h % 128;
}

-- The loop over the groups of five bytes, with the index of the next sample.
unfoldable pub decode_groups : Metadata → ℕ → Bytes → List DecodedSample
unfolding sample_of
decode_groups metadata index (t1 ∷ h1 ∷ decimals ∷ t2 ∷ h2 ∷ rest) =
    sample_of metadata index t1 h1 (decimals / 16 % 16)
    ∷ sample_of metadata (index + 1) t2 h2 (decimals % 16)
    ∷ decode_groups metadata (index + 2) rest
decode_groups metadata index _ = []

unfoldable pub decode_history_payload : Bytes → ℕ → Metadata → List DecodedSample
unfolding decode_groups
decode_history_payload [] start_index metadata = []
decode_history_payload (first ∷ body) start_index metadata =
    if first == 0x01 then decode_groups metadata start_index body else []

-- `math.ceil` or `math.floor` of a quotient
unfoldable pub rounded : Bool → ℤ → ℕ → ℤ
rounded true (pos d) i = pos ((d + i - 1) / i)
rounded false (pos d) i = pos (d / i)
rounded true (negsuc d) i = sub_ℕ 0 (suc d / i)
rounded false (negsuc d) i = sub_ℕ 0 ((suc d + i - 1) / i)

-- `max(0, min(limit, index))`
unfoldable pub clamp : ℕ → ℤ → ℕ
clamp limit (pos index) = min limit index
clamp limit (negsuc n) = 0

-- `epoch - start_epoch`
abbrev pub since : ℤ → ℕ → ℤ
since (pos epoch) start = sub_ℕ epoch start
since (negsuc n) start = negsuc (n + start)

unfoldable pub epoch_to_index : Metadata → ℤ → Bool → Option ℕ
unfolding rounded clamp
epoch_to_index metadata epoch round_up =
    if metadata.interval_seconds == 0
    then none
    else some (
        clamp metadata.end_index
          (rounded round_up (since epoch metadata.start_epoch) metadata.interval_seconds))
