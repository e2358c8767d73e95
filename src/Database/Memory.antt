-- ===== src/Database/Memory.antt =====
-- Two tables in memory: the promises of `Session` can be kept.
use esp32_home_display.Prelude.{
  ℕ, suc, ◌≡◌, refl, Bool, false, Option, none, some, List, [], ◌∷◌, arith, length, if◌then◌else◌,
  inl, inr, Option-cases,
}
use esp32_home_display.Text.{Str, codes, str_eq}
use esp32_home_display.Text.Laws.{str_eq_iff, str_eq_refl}
use esp32_home_display.Database.{
  Sensor, Row, find_sensor, find_row, same_key, Assign, Condition, after_upsert, upsert_returns,
  Written, done, violates, Session,
}

pub record Tables : Type 0 where
  pub sensors : List Sensor
  pub readings : List Row

append_sensor : List Sensor → Sensor → List Sensor
append_sensor [] new = new ∷ []
append_sensor (s ∷ ss) new = s ∷ append_sensor ss new

unfoldable pub insert_sensor : Tables → Str → Str → ℕ → Written Tables (Unit {0})
unfolding append_sensor find_sensor
insert_sensor d mac name type = elim (find_sensor mac d.sensors) [
  | some s ↦ violates (codes "sensors_pkey")
  | none ↦
      done
        (record d {
          sensors =
              append_sensor d.sensors
                (record { mac = mac; id = suc (length d.sensors); name = name; type = type });
        })
        tt
]

rename : List Sensor → Str → Str → List Sensor
rename [] mac name = []
rename (s ∷ ss) mac name =
    if str_eq s.mac mac then record s { name = name } ∷ ss else s ∷ rename ss mac name

unfoldable pub rename_sensor : Tables → Sensor → Str → Tables
unfolding rename
rename_sensor d s name = record d { sensors = rename d.sensors s.mac name }

upsert : Assign → Condition → Row → List Row → List Row
upsert set test new [] = new ∷ []
upsert set test new (row ∷ rows) =
    if same_key new row.mac row.timestamp
    then after_upsert set test new (some row) ∷ rows
    else row ∷ upsert set test new rows

unfoldable pub upsert_row : Tables → Assign → Condition → Row → Written Tables (Option Bool)
unfolding upsert find_row after_upsert upsert_returns
upsert_row d set test new =
    done (record d { readings = upsert set test new d.readings })
      (upsert_returns test new (find_row new.mac new.timestamp d.readings))

find_sensor-append :
    (ss : List Sensor) (new : Sensor) (mac : Str)
    → find_sensor mac (append_sensor ss new) ≡ (elim (find_sensor mac ss) [
      | some s ↦ some s
      | none ↦ if str_eq new.mac mac then some new else none
    ])
unfolding find_sensor append_sensor
find_sensor-append [] new mac = refl
find_sensor-append (s ∷ ss) new mac = ground (arith, find_sensor-append ss new mac)

find_sensor-rename :
    (ss : List Sensor) (s : Sensor) (name mac : Str)
    → find_sensor s.mac ss ≡ some s
    → find_sensor mac (rename ss s.mac name)
      ≡ (if str_eq s.mac mac then some (record s { name = name }) else find_sensor mac ss)
unfolding find_sensor rename
find_sensor-rename [] s name mac h = cc
find_sensor-rename (t ∷ ss) s name mac h = ground (
  arith,
  str_eq_iff t.mac s.mac,
  str_eq_iff t.mac mac,
  str_eq_iff s.mac mac,
  find_sensor-rename ss s name mac,
)

find_row-upsert :
    (set : Assign) (test : Condition) (new : Row) (rows : List Row) (mac : Str) (timestamp : ℕ)
    → find_row mac timestamp (upsert set test new rows) ≡ (
        if same_key new mac timestamp
        then some (after_upsert set test new (find_row new.mac new.timestamp rows))
        else find_row mac timestamp rows)
unfolding find_row upsert after_upsert
find_row-upsert set test new [] mac timestamp = refl
find_row-upsert set test new (row ∷ rows) mac timestamp = ground (
  arith,
  str_eq_iff row.mac mac,
  str_eq_iff new.mac row.mac,
  str_eq_iff row.mac new.mac,
  str_eq_iff new.mac mac,
  find_row-upsert set test new rows mac timestamp,
)

pub insert_finds :
    (d d' : Tables) (mac name : Str) (type : ℕ)
    → insert_sensor d mac name type ≡ done d' tt
    → (s : Sensor) × (find_sensor mac d'.sensors ≡ some s)
      × (s.mac ≡ mac)
      × (s.name ≡ name)
      × (s.type ≡ type)
unfolding insert_sensor
insert_finds d d' mac name type h = elim (Option-cases (find_sensor mac d.sensors)) [
  | inl e ↦
      let new : Sensor = record {
        mac = mac;
        id = suc (length d.sensors);
        name = name;
        type = type;
      } in
      (
        new,
        ground (arith, e, find_sensor-append d.sensors new mac, str_eq_refl mac),
        refl,
        refl,
        refl,
      )
  | inr (s, e) ↦ absurd (ground arith)
]

pub insert_keeps :
    (d d' : Tables) (mac name : Str) (type : ℕ) (other : Str)
    → insert_sensor d mac name type ≡ done d' tt
    → str_eq mac other ≡ false
    → find_sensor other d'.sensors ≡ find_sensor other d.sensors
unfolding insert_sensor
insert_keeps d d' mac name type other h ne =
    let new : Sensor = record {
      mac = mac;
      id = suc (length d.sensors);
      name = name;
      type = type;
    } in
    ground (arith, find_sensor-append d.sensors new other)

pub insert_readings :
    (d d' : Tables) (mac name : Str) (type : ℕ)
    → insert_sensor d mac name type ≡ done d' tt
    → d'.readings ≡ d.readings
unfolding insert_sensor
insert_readings d d' mac name type h = ground arith

pub upsert_finds :
    (d d' : Tables) (set : Assign) (test : Condition) (new : Row) (r : Option Bool) (mac : Str)
    (timestamp : ℕ)
    → upsert_row d set test new ≡ done d' r
    → find_row mac timestamp d'.readings ≡ (
        if same_key new mac timestamp
        then some (after_upsert set test new (find_row new.mac new.timestamp d.readings))
        else find_row mac timestamp d.readings)
unfolding upsert_row
upsert_finds d d' set test new r mac timestamp h =
    ground (arith, find_row-upsert set test new d.readings mac timestamp)

pub rename_finds :
    (d : Tables) (s : Sensor) (name mac : Str)
    → find_sensor s.mac d.sensors ≡ some s
    → find_sensor mac (rename_sensor d s name).sensors
      ≡ (if str_eq s.mac mac then some (record s { name = name }) else find_sensor mac d.sensors)
unfolding rename_sensor
rename_finds d s name mac h = find_sensor-rename d.sensors s name mac h

pub rename_readings :
    (d : Tables) (s : Sensor) (name : Str) → (rename_sensor d s name).readings ≡ d.readings
unfolding rename_sensor
rename_readings d s name = refl

pub upsert_gives :
    (d d' : Tables) (set : Assign) (test : Condition) (new : Row) (r : Option Bool)
    → upsert_row d set test new ≡ done d' r
    → r ≡ upsert_returns test new (find_row new.mac new.timestamp d.readings)
unfolding upsert_row
upsert_gives d d' set test new r h = ground arith

pub upsert_keeps :
    (d d' : Tables) (set : Assign) (test : Condition) (new : Row) (r : Option Bool)
    → upsert_row d set test new ≡ done d' r
    → d'.sensors ≡ d.sensors
unfolding upsert_row
upsert_keeps d d' set test new r h = ground arith

abbrev pub memory_session : Session Tables
memory_session = record {
  sensors = λ d. d.sensors;
  readings = λ d. d.readings;
  insert_sensor = insert_sensor;
  rename_sensor = rename_sensor;
  upsert_row = upsert_row;
  commit = λ d. d;
  insert_sensor_finds = insert_finds;
  insert_sensor_keeps = insert_keeps;
  insert_sensor_readings = insert_readings;
  rename_sensor_finds = rename_finds;
  rename_sensor_readings = rename_readings;
  upsert_row_finds = upsert_finds;
  upsert_row_returns = upsert_gives;
  upsert_row_sensors = upsert_keeps;
  commit_sensors = λ d. refl;
  commit_readings = λ d. refl;
}
