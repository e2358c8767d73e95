-- ===== src/Decoders/Scan.antt =====
-- tools/switchbot.py and tools/xiaomi.py: what a scan keeps of the advertisements that it hears, and the
-- smaller readers. An advertisement without the manufacturer's or the service's data has no payload.
use esp32_home_display.Prelude.{
  ℕ, ◌==◌, Bool, true, false, not, ◌&&◌, ◌||◌, Option, none, some, List, [], ◌∷◌, ◌++◌, ℤ, pos,
  ◌-ℤ◌, ◌*ℤ◌, eqb_ℤ, drop, if◌then◌else◌,
}
use esp32_home_display.Text.{Str, codes, str_eq, upper, is_empty, str_member}
use esp32_home_display.Dict.{Dict, lookup, insert}
use esp32_home_display.History.{Bytes}
use esp32_home_display.History.Arguments.{strip}
use esp32_home_display.Decoders.{is_meter_payload, Passive, decode_passive_payload}

pub record Advertisement : Type 0 where
  pub address : Str
  pub local_name : Str
  pub rssi : ℤ
  pub payload : Option Bytes

pub record Heard : Type 0 where
  pub rssi : ℤ
  pub payload : Bytes

-- `mac and addr == mac`, for a MAC address that may be missing
unfoldable pub is_device : Option Str → Str → Bool
is_device none addr = false
is_device (some mac) addr = not (is_empty mac) && str_eq addr mac

-- `on_device` of `scan_meters`: the hub, the bot and ignored devices are passed over, and the latest
-- payload of a meter is kept.
unfoldable pub hear_meter :
    Option Str → Option Str → List Str → Advertisement → Dict Heard → Dict Heard
unfolding is_device is_meter_payload upper insert
hear_meter hub_mac bot_mac ignore_macs adv sensors = elim adv.payload [
  | none ↦ sensors
  | some payload ↦
      let addr = upper adv.address in
      if is_device hub_mac addr || (is_device bot_mac addr || str_member addr ignore_macs)
      then sensors
      else if is_meter_payload payload
      then insert sensors addr (record { rssi = adv.rssi; payload = payload })
      else sensors
]

unfoldable pub scan_meters :
    Option Str → Option Str → List Str → List Advertisement → Dict Heard → Dict Heard
unfolding hear_meter
scan_meters hub_mac bot_mac ignore_macs [] sensors = sensors
scan_meters hub_mac bot_mac ignore_macs (adv ∷ advs) sensors =
    scan_meters hub_mac bot_mac ignore_macs advs
      (hear_meter hub_mac bot_mac ignore_macs adv sensors)

-- `value.split("=", 1)`: what is before the first sign, and after it.
unfoldable pub before_sign : ℕ → Option (Str × Str) → Option (Str × Str)
before_sign c none = none
before_sign c (some (name, rest)) = some (c ∷ name, rest)

unfoldable pub split_sign : Str → Option (Str × Str)
unfolding before_sign
split_sign [] = none
split_sign (c ∷ s) =
    let rest = split_sign s in if c == b'=' then some ([], s) else before_sign c rest

unfoldable pub parse_named_sensor : Str → Option (Str × Str)
unfolding split_sign strip upper
parse_named_sensor value = elim (split_sign value) [
  | none ↦ none
  | some (raw_name, raw_mac) ↦
      let name = strip raw_name in
      let mac = upper (strip raw_mac) in
      if is_empty name || is_empty mac then none else some (name, mac)
]

-- `entry_datetime`, with the wall clock in microseconds
unfoldable pub entry_datetime : ℕ → ℕ → ℤ → ℤ
entry_datetime entry_ts device_now wall_now =
    wall_now -ℤ (pos device_now -ℤ pos entry_ts) *ℤ pos 1_000_000

pub record Battery : Type 0 where
  pub battery_pct : ℕ
  pub firmware : Bytes

-- `rstrip("\\x00")`
unfoldable pub keep_code : ℕ → Bytes → Bytes
keep_code b [] = if b == 0 then [] else b ∷ []
keep_code b (c ∷ bs) = b ∷ c ∷ bs

unfoldable pub rstrip_zero : Bytes → Bytes
unfolding keep_code
rstrip_zero [] = []
rstrip_zero (b ∷ bs) = keep_code b (rstrip_zero bs)

-- The firmware's text, which is ASCII, starts at the third byte.
unfoldable pub parse_battery : Bytes → Option Battery
unfolding rstrip_zero
parse_battery [] = none
parse_battery (b ∷ bs) = some (record { battery_pct = b; firmware = rstrip_zero (drop 1 bs) })

unfoldable pub same_passive : Passive → Passive → Bool
same_passive (Passive.temperature_tenths a) (Passive.temperature_tenths b) = eqb_ℤ a b
same_passive (Passive.lux a) (Passive.lux b) = a == b
same_passive (Passive.moisture_pct a) (Passive.moisture_pct b) = a == b
same_passive (Passive.conductivity_us_cm a) (Passive.conductivity_us_cm b) = a == b
same_passive _ _ = false

unfoldable pub is_seen : Passive → List Passive → Bool
unfolding same_passive
is_seen p [] = false
is_seen p (q ∷ qs) = if same_passive q p then true else is_seen p qs

-- `seen[addr]` of a dictionary whose missing lists are empty
unfoldable pub seen_at : Dict (List Passive) → Str → List Passive
unfolding lookup
seen_at seen addr = elim (lookup seen addr) [ none ↦ [] | some values ↦ values ]

abbrev pub local_name : Str
local_name = codes "Flower care"

-- The address is not the one that the scan is for.
unfoldable pub is_filtered : Option Str → Str → Bool
is_filtered none addr = false
is_filtered (some mac) addr = not (is_empty mac) && not (str_eq addr mac)

-- `on_device` of `run_passive`: each decoded value of a device is kept once. Looking one up leaves the
-- empty list of a new device behind, which the value then joins.
unfoldable pub hear_plant : Option Str → Advertisement → Dict (List Passive) → Dict (List Passive)
unfolding is_filtered upper decode_passive_payload seen_at is_seen insert
hear_plant mac_filter adv seen =
    let addr = upper adv.address in
    if is_filtered mac_filter addr || not (str_eq adv.local_name local_name)
    then seen
    else elim adv.payload [
      | none ↦ seen
      | some payload ↦ elim (decode_passive_payload payload) [
        | none ↦ seen
        | some decoded ↦
            if is_seen decoded (seen_at seen addr)
            then seen
            else insert seen addr (seen_at seen addr ++ decoded ∷ [])
      ]
    ]

unfoldable pub run_passive :
    Option Str → List Advertisement → Dict (List Passive) → Dict (List Passive)
unfolding hear_plant
run_passive mac_filter [] seen = seen
run_passive mac_filter (adv ∷ advs) seen =
    run_passive mac_filter advs (hear_plant mac_filter adv seen)
