-- ===== src/Plants/Slugs.antt =====
-- Every configured sensor is found by its MAC address.
use esp32_home_display.Prelude.{
  ℕ, zero, suc, ◌+◌, ◌≡◌, refl, sym, ◌⊎◌, inl, inr, true, false, Option, none, some, List, [], ◌∷◌,
  get_elem?, arith, Bool-cases,
}
use esp32_home_display.Text.{Str, str_eq, upper, str_member}
use esp32_home_display.Text.Laws.{str_eq_refl, str_eq_ne, upper_idem}
use esp32_home_display.Common.{mac_address_re}
use esp32_home_display.Plants.{
  PlantSensorConfig, RawSensor, PlantError, bad_slug, bad_name, duplicate_mac, duplicate_slug,
  Parsed, parsed, refused, then_parse, check_mac, check_text, check_new, check_item, parse_items,
  parse_plant_sensors, slug_for_mac,
}

then_parse-parsed {ℓ κ} :
    {A : Type ℓ} {B : Type κ} (r : Parsed A) (f : A → Parsed B) (b : B)
    → then_parse r f ≡ parsed b
    → (a : A) × (r ≡ parsed a) × (f a ≡ parsed b)
then_parse-parsed (parsed a) f b h = (a, refl, h)
then_parse-parsed (refused e) f b h = absurd (ground arith)

Parsed-cases {ℓ} :
    {A : Type ℓ} (r : Parsed A) → ((a : A) × (r ≡ parsed a)) ⊎ ((e : PlantError) × (r ≡ refused e))
Parsed-cases (parsed a) = inl (a, refl)
Parsed-cases (refused e) = inr (e, refl)

check_mac-upper :
    (index : ℕ) (raw : Option Str) (mac : Str) → check_mac index raw ≡ parsed mac → upper mac ≡ mac
unfolding check_mac
check_mac-upper index none mac h = absurd (ground arith)
check_mac-upper index (some raw) mac h = elim (Bool-cases (mac_address_re raw)) [
  | inr e ↦ absurd (ground arith)
  | inl e ↦ let same : upper raw ≡ mac = ground arith in rw (sym same) (upper_idem raw)
]

check_new_fresh :
    (error : PlantError) (value : Str) (seen : List Str)
    → check_new error value seen ≡ parsed tt
    → str_member value seen ≡ false
unfolding check_new
check_new_fresh error value seen h = ground arith

-- A MAC address that is in upper case, and none of those seen before.
abbrev pub IsNew : List Str → Str → Type 0
IsNew macs mac = (upper mac ≡ mac) × (str_member mac macs ≡ false)

check_item-IsNew :
    (index : ℕ) (macs slugs : List Str) (item : Option RawSensor) (s : PlantSensorConfig)
    → check_item index macs slugs item ≡ parsed s
    → IsNew macs s.mac
unfolding check_item
check_item-IsNew index macs slugs none s h = absurd (ground arith)
check_item-IsNew index macs slugs (some r) s h = elim (Parsed-cases (check_mac index r.mac)) [
  | inr (x, e) ↦ absurd (ground arith)
  | inl (mac, e) ↦ elim (Parsed-cases (check_text (bad_slug index) r.slug)) [
    | inr (x, f) ↦ absurd (ground arith)
    | inl (slug, f) ↦ elim (Parsed-cases (check_text (bad_name index) r.name)) [
      | inr (x, g) ↦ absurd (ground arith)
      | inl (name, g) ↦ elim (Parsed-cases (check_new (duplicate_mac index) mac macs)) [
        | inr (x, k) ↦ absurd (ground arith)
        | inl (tt, k) ↦ elim (Parsed-cases (check_new (duplicate_slug index) slug slugs)) [
          | inr (x, l) ↦ absurd (ground arith)
          | inl (tt, l) ↦
              let same : mac ≡ s.mac = ground arith in
              rw (sym same) (
                check_mac-upper index r.mac mac e,
                check_new_fresh (duplicate_mac index) mac macs k,
              )
        ]
      ]
    ]
  ]
]

-- A sensor that comes later is not found in place of an earlier one.
later_slug :
    (s0 : PlantSensorConfig) (rest : List PlantSensorConfig) (macs : List Str)
    (s : PlantSensorConfig)
    → IsNew (s0.mac ∷ macs) s.mac
    → slug_for_mac rest s.mac ≡ some s.slug
    → IsNew macs s.mac × (slug_for_mac (s0 ∷ rest) s.mac ≡ some s.slug)
unfolding slug_for_mac str_member
later_slug s0 rest macs s (capital, fresh) found = elim (Bool-cases (str_eq s.mac s0.mac)) [
  | inl e ↦ absurd (ground arith)
  | inr e ↦
      let other : str_eq s0.mac s.mac ≡ false =
        str_eq_ne s0.mac s.mac (λ same. differs (rw same (str_eq_refl s.mac)) e) in
      ((capital, ground arith), rw (capital, other) found)
]
  where
    differs : str_eq s.mac s0.mac ≡ true → str_eq s.mac s0.mac ≡ false → ⊥
    differs a b = ground arith

abbrev pub IsFound : List Str → List PlantSensorConfig → Type 0
IsFound macs sensors =
    (i : ℕ) (s : PlantSensorConfig)
    → get_elem? sensors i ≡ some s
    → IsNew macs s.mac × (slug_for_mac sensors s.mac ≡ some s.slug)

cons-IsFound :
    (macs : List Str) (s0 : PlantSensorConfig) (rest : List PlantSensorConfig)
    → IsNew macs s0.mac
    → IsFound (s0.mac ∷ macs) rest
    → IsFound macs (s0 ∷ rest)
unfolding slug_for_mac
cons-IsFound macs s0 rest (capital, fresh) later zero s k =
    let same : s0 ≡ s = ground arith in
    rw (sym same) ((capital, fresh), rw (capital, str_eq_refl s0.mac) refl)
cons-IsFound macs s0 rest new later (suc i) s k =
    let (its_new, found) = later i s k in later_slug s0 rest macs s its_new found

nil-IsFound : (macs : List Str) → IsFound macs []
nil-IsFound macs i s k = absurd (ground arith)

parse_items-IsFound :
    (index : ℕ) (macs slugs : List Str) (items : List (Option RawSensor))
    (sensors : List PlantSensorConfig)
    → parse_items index macs slugs items ≡ parsed sensors
    → IsFound macs sensors
unfolding parse_items
parse_items-IsFound index macs slugs [] sensors h =
    let same : [] ≡ sensors = ground arith in rw (sym same) (nil-IsFound macs)
parse_items-IsFound index macs slugs (item ∷ items) sensors h =
    elim (Parsed-cases (check_item index macs slugs item)) [
      | inr (x, e) ↦ absurd (ground arith)
      | inl (s0, e) ↦
          elim (Parsed-cases (parse_items (index + 1) (s0.mac ∷ macs) (s0.slug ∷ slugs) items)) [
            | inr (x, f) ↦ absurd (ground arith)
            | inl (rest, f) ↦
                let same : s0 ∷ rest ≡ sensors = ground arith in
                rw (sym same) (
                  cons-IsFound macs s0 rest (check_item-IsNew index macs slugs item s0 e) (
                    parse_items-IsFound (index + 1) (s0.mac ∷ macs) (s0.slug ∷ slugs) items rest f))
          ]
    ]

-- In a list of plant sensors that the configuration accepts, each sensor is found by its MAC address,
-- with its own slug and with no other's.
pub slug_for_mac-parse_plant_sensors :
    (raw : Option (List (Option RawSensor))) (sensors : List PlantSensorConfig) (i : ℕ)
    (s : PlantSensorConfig)
    → parse_plant_sensors raw ≡ parsed sensors
    → get_elem? sensors i ≡ some s
    → slug_for_mac sensors s.mac ≡ some s.slug
unfolding parse_plant_sensors
slug_for_mac-parse_plant_sensors none sensors i s h k = absurd (ground arith)
slug_for_mac-parse_plant_sensors (some raw) sensors i s h k =
    (parse_items-IsFound 0 [] [] raw sensors h i s k).1
