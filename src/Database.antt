-- ===== src/Database.antt =====
-- server/app/models.py, and what the server takes from PostgreSQL through SQLAlchemy: the contents
-- of two tables and three statements, each with its documented effect. The statements' own parts
-- (which rows they select, what they set and when) are in the modules that issue them.
pub mod Memory
pub mod Keeps
use esp32_home_display.Prelude.{
  ℕ, ◌≡◌, refl, ◌⊎◌, inl, inr, Bool, true, false, ◌&&◌, Option, none, some, List, [], ◌∷◌, ◌==◌,
  if◌then◌else◌,
}
use esp32_home_display.Text.{Str, str_eq}
use esp32_home_display.Float.{Float}

abbrev pub switchbot_type : ℕ
switchbot_type = 1

abbrev pub xiaomi_type : ℕ
xiaomi_type = 2

-- `Sensor`; the id is a UUID, here the number that it stands for.
pub record Sensor : Type 0 where
  pub mac : Str
  pub id : ℕ
  pub name : Str
  pub type : ℕ

-- A row of a readings table: `values` holds the columns of the data fields, by name, and an
-- absent value is NULL. Timestamps are stored as instants.
pub record Row : Type 0 where
  pub sensor_id : ℕ
  pub mac : Str
  pub timestamp : ℕ
  pub values : Str → Option Float

-- `where(Sensor.mac == mac)`, on a primary key
unfoldable pub find_sensor : Str → List Sensor → Option Sensor
find_sensor mac [] = none
find_sensor mac (s ∷ ss) = if str_eq s.mac mac then some s else find_sensor mac ss

-- `where(Sensor.id == sensor_id)`, on a unique column
unfoldable pub find_sensor_id : ℕ → List Sensor → Option Sensor
find_sensor_id id [] = none
find_sensor_id id (s ∷ ss) = if s.id == id then some s else find_sensor_id id ss

abbrev pub same_key : Row → Str → ℕ → Bool
same_key row mac timestamp = str_eq row.mac mac && row.timestamp == timestamp

-- `where(mac == …, timestamp == …)`, on the unique key of a readings table
unfoldable pub find_row : Str → ℕ → List Row → Option Row
find_row mac timestamp [] = none
find_row mac timestamp (row ∷ rows) =
    if same_key row mac timestamp then some row else find_row mac timestamp rows

-- The assignments of a SET clause, by the old row and the new one, and the condition of a WHERE.
abbrev pub Assign : Type 0
Assign = Row → Row → Str → Option Float

abbrev pub Condition : Type 0
Condition = Row → Row → Bool

-- What `INSERT … ON CONFLICT (mac, timestamp) DO UPDATE SET … WHERE …` leaves under the key of the
-- new row: the row itself if there was none, the old row with `set` if `test` holds, else the old row.
unfoldable pub after_upsert : Assign → Condition → Row → Option Row → Row
after_upsert set test new none = new
after_upsert set test new (some old) =
    if test old new then record old { values = set old new } else old

-- What `RETURNING xmax = 0` gives: no row if nothing was written.
unfoldable pub upsert_returns : Condition → Row → Option Row → Option Bool
upsert_returns test new none = some true
upsert_returns test new (some old) = if test old new then some false else none

-- A statement that may break a constraint, which it names.
pub data Written (D A : Type 0) : Type 0 where
  done : D → A → Written D A
  violates : Str → Written D A

pub Written-cases :
    {D A : Type 0} (w : Written D A)
    → ((d : D) × (a : A) × (w ≡ done d a)) ⊎ ((c : Str) × (w ≡ violates c))
Written-cases (done d a) = inl (d, a, refl)
Written-cases (violates c) = inr (c, refl)

pub record Session (D : Type 0) : Type 0 where
  pub sensors : D → List Sensor
  pub readings : D → List Row
  pub insert_sensor : D → Str → Str → ℕ → Written D (Unit {0})
  pub rename_sensor : D → Sensor → Str → D
  pub upsert_row : D → Assign → Condition → Row → Written D (Option Bool)
  pub commit : D → D
  pub insert_sensor_finds :
      (d d' : D) (mac name : Str) (type : ℕ)
      → insert_sensor d mac name type ≡ done d' tt
      → (s : Sensor) × (find_sensor mac (sensors d') ≡ some s)
        × (s.mac ≡ mac)
        × (s.name ≡ name)
        × (s.type ≡ type)
  pub insert_sensor_keeps :
      (d d' : D) (mac name : Str) (type : ℕ) (other : Str)
      → insert_sensor d mac name type ≡ done d' tt
      → str_eq mac other ≡ false
      → find_sensor other (sensors d') ≡ find_sensor other (sensors d)
  pub insert_sensor_readings :
      (d d' : D) (mac name : Str) (type : ℕ)
      → insert_sensor d mac name type ≡ done d' tt
      → readings d' ≡ readings d
  pub rename_sensor_finds :
      (d : D) (s : Sensor) (name mac : Str)
      → find_sensor s.mac (sensors d) ≡ some s
      → find_sensor mac (sensors (rename_sensor d s name)) ≡ (
          if str_eq s.mac mac then some (record s { name = name }) else find_sensor mac (sensors d))
  pub rename_sensor_readings :
      (d : D) (s : Sensor) (name : Str) → readings (rename_sensor d s name) ≡ readings d
  pub upsert_row_finds :
      (d d' : D) (set : Assign) (test : Condition) (new : Row) (r : Option Bool) (mac : Str)
      (timestamp : ℕ)
      → upsert_row d set test new ≡ done d' r
      → find_row mac timestamp (readings d') ≡ (
          if same_key new mac timestamp
          then some (after_upsert set test new (find_row new.mac new.timestamp (readings d)))
          else find_row mac timestamp (readings d))
  pub upsert_row_returns :
      (d d' : D) (set : Assign) (test : Condition) (new : Row) (r : Option Bool)
      → upsert_row d set test new ≡ done d' r
      → r ≡ upsert_returns test new (find_row new.mac new.timestamp (readings d))
  pub upsert_row_sensors :
      (d d' : D) (set : Assign) (test : Condition) (new : Row) (r : Option Bool)
      → upsert_row d set test new ≡ done d' r
      → sensors d' ≡ sensors d
  pub commit_sensors : (d : D) → sensors (commit d) ≡ sensors d
  pub commit_readings : (d : D) → readings (commit d) ≡ readings d
