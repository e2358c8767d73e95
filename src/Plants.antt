-- ===== src/Plants.antt =====
-- server/app/config.py and server/app/plant_proxy.py: the sensors of the plant monitor, as they are
-- configured and looked up, and the sensor rows that its answers create. A configured value that is
-- missing or no text is absent.
pub mod Slugs
pub mod Latest
pub mod Readings
pub mod Meters
mod Tests
use Prim.Native.Nat.{min}
use esp32_home_display.Prelude.{
  is_one_of, ℕ, ◌+◌, ◌≡◌, Bool, true, false, Option, none, some, List, [], ◌∷◌, ltb, ◌==◌,
  if◌then◌else◌,
}
use esp32_home_display.Text.{Str, str_eq, upper, is_empty, str_member}
use esp32_home_display.Common.{mac_address_re}
use esp32_home_display.Database.{
  Sensor, Session, Written, done, violates, switchbot_type, xiaomi_type,
}
use esp32_home_display.Ingest.{get_sensor_by_mac}

pub record PlantSensorConfig : Type 0 where
  pub mac : Str
  pub slug : Str
  pub name : Str

pub record RawSensor : Type 0 where
  pub mac : Option Str
  pub slug : Option Str
  pub name : Option Str

-- What is wrong, and with which item.
pub data PlantError : Type 0 where
  not_a_list : PlantError
  not_an_object bad_mac bad_slug bad_name duplicate_mac duplicate_slug : ℕ → PlantError

pub data Parsed {ℓ} (A : Type ℓ) : Type ℓ where
  parsed : A → Parsed A
  refused : PlantError → Parsed A

abbrev pub then_parse {ℓ κ} : {A : Type ℓ} {B : Type κ} → Parsed A → (A → Parsed B) → Parsed B
then_parse (parsed a) f = f a
then_parse (refused e) f = refused e

unfoldable pub check_mac : ℕ → Option Str → Parsed Str
check_mac index none = refused (bad_mac index)
check_mac index (some mac) =
    if mac_address_re mac then parsed (upper mac) else refused (bad_mac index)

-- `not isinstance(value, str) or not value`
unfoldable pub check_text : PlantError → Option Str → Parsed Str
check_text error none = refused error
check_text error (some value) = if is_empty value then refused error else parsed value

unfoldable pub check_new : PlantError → Str → List Str → Parsed (Unit {0})
check_new error value seen = if str_member value seen then refused error else parsed tt

-- The body of the loop, up to its additions to the sets.
unfoldable pub check_item : ℕ → List Str → List Str → Option RawSensor → Parsed PlantSensorConfig
unfolding check_mac check_text check_new
check_item index seen_macs seen_slugs none = refused (not_an_object index)
check_item index seen_macs seen_slugs (some item) = then_parse (check_mac index item.mac) λ mac.
    then_parse (check_text (bad_slug index) item.slug) λ slug.
      then_parse (check_text (bad_name index) item.name) λ name.
        then_parse (check_new (duplicate_mac index) mac seen_macs) λ _.
          then_parse (check_new (duplicate_slug index) slug seen_slugs)
            λ _. parsed (record { mac = mac; slug = slug; name = name })

unfoldable pub parse_items :
    ℕ → List Str → List Str → List (Option RawSensor) → Parsed (List PlantSensorConfig)
unfolding check_item
parse_items index seen_macs seen_slugs [] = parsed []
parse_items index seen_macs seen_slugs (item ∷ items) =
    then_parse (check_item index seen_macs seen_slugs item) λ sensor.
      then_parse (parse_items (index + 1) (sensor.mac ∷ seen_macs) (sensor.slug ∷ seen_slugs) items)
        λ sensors. parsed (sensor ∷ sensors)

unfoldable pub parse_plant_sensors :
    Option (List (Option RawSensor)) → Parsed (List PlantSensorConfig)
unfolding parse_items
parse_plant_sensors none = refused not_a_list
parse_plant_sensors (some raw) = parse_items 0 [] [] raw

unfoldable pub slug_for_mac : List PlantSensorConfig → Str → Option Str
slug_for_mac [] mac = none
slug_for_mac (s ∷ ss) mac =
    let rest = slug_for_mac ss mac in if str_eq s.mac (upper mac) then some s.slug else rest

-- A row of another type is not used.
unfoldable pub sensor_if_type : Option Sensor → ℕ → Option Sensor
sensor_if_type none expected_type = none
sensor_if_type (some sensor) expected_type =
    if sensor.type == expected_type then some sensor else none

-- `_ensure_plant_sensor` and `_ensure_meter_sensor`, which differ in the type: the row is looked up,
-- else created, and looked up again if another request created it first.
unfoldable pub ensure_listed_sensor :
    {D : Type 0} → Session D → ℕ → Str → Str → D → Option Sensor × D
unfolding sensor_if_type get_sensor_by_mac
ensure_listed_sensor db type mac name d = elim (get_sensor_by_mac db mac d) [
  | some sensor ↦ (sensor_if_type (some sensor) type, d)
  | none ↦ elim (db.insert_sensor d mac name type) [
    | done d' _ ↦ (sensor_if_type (get_sensor_by_mac db mac d') type, db.commit d')
    | violates constraint ↦ (sensor_if_type (get_sensor_by_mac db mac d) type, d)
  ]
]

-- `_retry_after`, of a value that is absent if it is missing or no integer
unfoldable pub retry_after : Option ℕ → ℕ → ℕ
retry_after none default = default
retry_after (some secs) default = if ltb 0 secs then secs else default

-- An entry of an answer that is an object with a MAC address and a time, or is passed over.
pub record LatestEntry : Type 0 where
  pub mac : Str
  pub name : Str

-- A row that was not made, or is not among the ids that are asked for, is passed over.
unfoldable pub add_wanted : Option (List ℕ) → Option Sensor → List Sensor → List Sensor
add_wanted ids none rest = rest
add_wanted none (some s) rest = s ∷ rest
add_wanted (some ids) (some s) rest = if is_one_of s.id ids then s ∷ rest else rest

-- The loop over the entries of one answer: the rows whose readings are shown, in order.
unfoldable pub latest_loop :
    {D : Type 0} → Session D → ℕ → Option (List ℕ) → List (Option LatestEntry) → D → List Sensor × D
unfolding ensure_listed_sensor add_wanted
latest_loop db type sensor_ids [] d = ([], d)
latest_loop db type sensor_ids (none ∷ entries) d = latest_loop db type sensor_ids entries d
latest_loop db type sensor_ids (some e ∷ entries) d =
    let (found, d') = ensure_listed_sensor db type e.mac e.name d in
    let (rest, d'') = latest_loop db type sensor_ids entries d' in
    (add_wanted sensor_ids found rest, d'')

abbrev pub meter_retry_default : ℕ
meter_retry_default = 300

abbrev pub flower_care_retry_default : ℕ
flower_care_retry_default = 3600

-- An answer of the plant monitor: none if the request failed or the body is malformed.
pub record LatestBody : Type 0 where
  pub entries : List (Option LatestEntry)
  pub retry_after_secs : Option ℕ

unfoldable pub latest_part :
    {D : Type 0}
    → Session D
    → ℕ
    → ℕ
    → Option (List ℕ)
    → Option LatestBody
    → D
    → (List Sensor × ℕ) × D
unfolding latest_loop retry_after
latest_part db type default sensor_ids none d = (([], default), d)
latest_part db type default sensor_ids (some body) d =
    let (rows, d') = latest_loop db type sensor_ids body.entries d in
    ((rows, retry_after body.retry_after_secs default), d')

pub record LatestOut : Type 0 where
  pub meters : List Sensor
  pub plants : List Sensor
  pub retry_after_secs : ℕ

unfoldable pub latest_v2_entries :
    {D : Type 0}
    → Session D
    → Option (List ℕ)
    → Option LatestBody
    → Option LatestBody
    → D
    → LatestOut × D
unfolding latest_part
latest_v2_entries db sensor_ids meter_body plant_body d =
    let ((meters, meter_retry), d') =
      latest_part db switchbot_type meter_retry_default sensor_ids meter_body d in
    let ((plants, plant_retry), d'') =
      latest_part db xiaomi_type flower_care_retry_default sensor_ids plant_body d' in
    (
      record { meters = meters; plants = plants; retry_after_secs = min meter_retry plant_retry },
      d'',
    )
