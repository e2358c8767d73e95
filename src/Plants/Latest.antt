-- ===== src/Plants/Latest.antt =====
-- The rows that the latest entries show.
use esp32_home_display.Prelude.{
  is_one_of, ℕ, ◌≤◌, ◌≡◌, refl, inl, inr, Bool, true, Option, none, some, List, [], ◌∷◌, ◌==◌,
  arith, Bool-cases, Option-cases, All, ==_iff,
}
use esp32_home_display.Text.{Str}
use esp32_home_display.Database.{Sensor, Session, Written-cases, switchbot_type, xiaomi_type}
use esp32_home_display.Ingest.{get_sensor_by_mac}
use esp32_home_display.Plants.{
  sensor_if_type, ensure_listed_sensor, retry_after, LatestEntry, add_wanted, latest_loop,
  meter_retry_default, flower_care_retry_default, LatestBody, latest_part, latest_v2_entries,
}

abbrev pub is_asked_for : Option (List ℕ) → ℕ → Bool
is_asked_for none id = true
is_asked_for (some ids) id = is_one_of id ids

-- A row of the sensor type that an answer is about, and one of those asked for.
abbrev pub IsShown : ℕ → Option (List ℕ) → Sensor → Type 0
IsShown type ids s = (s.type ≡ type) × (is_asked_for ids s.id ≡ true)

add_wanted-IsShown :
    (type : ℕ) (ids : Option (List ℕ)) (found : Option Sensor) (rest : List Sensor)
    → All (IsShown type ids) rest
    → All (IsShown type ids) (add_wanted ids (sensor_if_type found type) rest)
unfolding add_wanted sensor_if_type
add_wanted-IsShown type ids none rest h = h
add_wanted-IsShown type none (some s) rest h = elim (Bool-cases (s.type == type)) [
  | inl e ↦ rw e (((==_iff s.type type).0 e, refl), h)
  | inr e ↦ rw e h
]
add_wanted-IsShown type (some ids) (some s) rest h = elim (Bool-cases (s.type == type)) [
  | inl e ↦ elim (Bool-cases (is_one_of s.id ids)) [
    | inl f ↦ rw (e, f) (((==_iff s.type type).0 e, f), h)
    | inr f ↦ rw (e, f) h
  ]
  | inr e ↦ rw e h
]

module _ {D : Type 0} (db : Session D) (type : ℕ) (ids : Option (List ℕ)) where
  -- The row that is found or made is checked for its type on every path.
  ensured :
      (mac name : Str) (d : D)
      → (found : Option Sensor) × ((ensure_listed_sensor db type mac name d).0
          ≡ sensor_if_type found type)
  unfolding ensure_listed_sensor
  ensured mac name d = elim (Option-cases (get_sensor_by_mac db mac d)) [
    | inr (s, e) ↦ (some s, rw (ensure_listed_sensor, e) refl)
    | inl e ↦ elim (Written-cases (db.insert_sensor d mac name type)) [
      | inl (d', u, f) ↦ (get_sensor_by_mac db mac d', rw (ensure_listed_sensor, e, f) refl)
      | inr (c, f) ↦ (none, rw (ensure_listed_sensor, e, f, e) refl)
    ]
  ]

  latest_loop-IsShown :
      (entries : List (Option LatestEntry)) (d : D)
      → All (IsShown type ids) (latest_loop db type ids entries d).0
  unfolding latest_loop
  latest_loop-IsShown [] d = tt
  latest_loop-IsShown (none ∷ entries) d = latest_loop-IsShown entries d
  latest_loop-IsShown (some e ∷ entries) d =
      let (found, checked) = ensured e.mac e.name d in
      let d' = (ensure_listed_sensor db type e.mac e.name d).1 in
      rw (latest_loop, checked)
        (add_wanted-IsShown type ids found (latest_loop db type ids entries d').0
          (latest_loop-IsShown entries d'))

  latest_part-IsShown :
      (default : ℕ) (body : Option LatestBody) (d : D)
      → 1 ≤ default
      → All (IsShown type ids) (latest_part db type default ids body d).0.0
        × (1 ≤ (latest_part db type default ids body d).0.1)
  unfolding latest_part retry_after
  latest_part-IsShown default none d h = (tt, h)
  latest_part-IsShown default (some body) d h =
      (latest_loop-IsShown body.entries d, positive body.retry_after_secs)
    where
      positive : (secs : Option ℕ) → 1 ≤ retry_after secs default
      positive none = h
      positive (some n) = ground arith

-- The latest entries name only meters under the meters and only plants under the plants, each of them
-- asked for, and the client is told to wait for at least a second.
pub latest_v2_entries-IsShown :
    {D : Type 0} (db : Session D) (ids : Option (List ℕ))
    (meter_body plant_body : Option LatestBody) (d : D)
    → All (IsShown switchbot_type ids) (latest_v2_entries db ids meter_body plant_body d).0.meters
      × All (IsShown xiaomi_type ids) (latest_v2_entries db ids meter_body plant_body d).0.plants
      × (1 ≤ (latest_v2_entries db ids meter_body plant_body d).0.retry_after_secs)
unfolding latest_v2_entries
latest_v2_entries-IsShown db ids meter_body plant_body d =
    let d' = (latest_part db switchbot_type meter_retry_default ids meter_body d).1 in
    let (meters, soon) =
      latest_part-IsShown db switchbot_type ids meter_retry_default meter_body d (omega arith) in
    let (plants, later) =
      latest_part-IsShown db xiaomi_type ids flower_care_retry_default plant_body d'
        (omega arith) in
    (meters, plants, omega (arith, soon, later))
