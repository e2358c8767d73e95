-- ===== src/Plants/Readings/Rows.antt =====
-- What the rows of the monitor become, and when they fail.
use esp32_home_display.Prelude.{
  ◌≡◌, refl, sym, ap, ◌∙◌, if◌then◌else◌, inl, inr, Bool, true, false, ◌&&◌, ◌||◌, Option, none,
  some, List, [], ◌∷◌, Option-cases, arith,
}
use esp32_home_display.Common.{Datetime}
use esp32_home_display.Plants.Readings.{
  Checked, absent, refused, valid, required, nullable, is_aware, is_naive, any_of, MonitorRow,
  PlantReadingOut, MeterReadingOut, map_reading, meter_reading, collect_one, collect, sort_desc,
  sorted_if_all,
}

abbrev pub is_absent {ℓ} : {A : Type ℓ} → Option A → Bool
is_absent none = true
is_absent (some a) = false

-- A value as the monitor sends it.
abbrev pub sent : {A : Type 0} → Option A → Checked A
sent none = absent
sent (some a) = valid a

-- The reading says what the row says.
abbrev pub ShowsPlant : MonitorRow → PlantReadingOut → Type 0
ShowsPlant row r =
    (row.recorded_at ≡ valid r.timestamp)
    × (row.temperature_c ≡ sent r.temperature_c)
    × (row.moisture_pct ≡ sent r.moisture_pct)
    × (row.lux ≡ sent r.light_lux)
    × (row.conductivity_us_cm ≡ sent r.conductivity_us_cm)

-- The readings of the rows, one for each, in order.
abbrev pub AllShown : {A : Type 0} → (MonitorRow → A → Type 0) → List MonitorRow → List A → Type 0
AllShown P [] [] = Unit {0}
AllShown P [] (x ∷ xs) = ⊥
AllShown P (row ∷ rows) [] = ⊥
AllShown P (row ∷ rows) (x ∷ xs) = P row x × AllShown P rows xs

nullable-sent : {A : Type 0} (o : Option A) → nullable (sent o) ≡ some o
unfolding nullable
nullable-sent none = refl
nullable-sent (some a) = refl

pub map_reading-ShowsPlant :
    (row : MonitorRow) (r : PlantReadingOut) → ShowsPlant row r → map_reading row ≡ some r
unfolding map_reading required
map_reading-ShowsPlant row r h =
    rw
      (
        map_reading,
        h.0,
        h.1,
        h.2,
        h.3,
        h.4,
        nullable-sent r.temperature_c,
        nullable-sent r.moisture_pct,
        nullable-sent r.light_lux,
        nullable-sent r.conductivity_us_cm,
      )
      refl

module _ {A : Type 0} (f : MonitorRow → Option A) where
  pub collect-AllShown :
      (P : MonitorRow → A → Type 0)
      → ((row : MonitorRow) (x : A) → P row x → f row ≡ some x)
      → (rows : List MonitorRow) (xs : List A) → AllShown P rows xs
      → collect f rows ≡ some xs
  unfolding collect collect_one
  collect-AllShown P h [] [] all = refl
  collect-AllShown P h [] (x ∷ xs) all = absurd all
  collect-AllShown P h (row ∷ rows) [] all = absurd all
  collect-AllShown P h (row ∷ rows) (x ∷ xs) all =
      rw (h row x all.0, collect-AllShown P h rows xs all.1) refl

  abbrev any_failing : List MonitorRow → Bool
  any_failing [] = false
  any_failing (row ∷ rows) = is_absent (f row) || any_failing rows

  is_absent-collect : (rows : List MonitorRow) → is_absent (collect f rows) ≡ any_failing rows
  unfolding collect collect_one
  is_absent-collect [] = refl
  is_absent-collect (row ∷ rows) = elim (Option-cases (f row)) [
    | inl e ↦ rw e refl
    | inr (x, e) ↦ elim (Option-cases (collect f rows)) [
      | inl g ↦ rw (e, sym (is_absent-collect rows), g) refl
      | inr (xs, g) ↦ rw (e, sym (is_absent-collect rows), g) refl
    ]
  ]

-- The row has a time, which passes the test.
abbrev pub has_time : (Datetime → Bool) → MonitorRow → Bool
has_time test row = elim row.recorded_at [ absent ↦ false | refused ↦ false | valid t ↦ test t ]

-- Some rows have a time with a zone, and some a time without one.
abbrev pub mixes_times : List MonitorRow → Bool
mixes_times rows = any_of (has_time is_aware) rows && any_of (has_time is_naive) rows

abbrev pub is_unset : {A : Type 0} → Checked A → Bool
is_unset absent = true
is_unset refused = true
is_unset (valid a) = false

abbrev pub is_refused : {A : Type 0} → Checked A → Bool
is_refused absent = false
is_refused refused = true
is_refused (valid a) = false

abbrev pub is_no_plant_row : MonitorRow → Bool
is_no_plant_row row =
    is_unset row.recorded_at
    || (is_refused row.temperature_c
        || (is_refused row.moisture_pct
            || (is_refused row.lux || is_refused row.conductivity_us_cm)))

abbrev pub is_no_meter_row : MonitorRow → Bool
is_no_meter_row row =
    is_unset row.recorded_at || (is_unset row.temperature_c || is_unset row.humidity_pct)

pub map_reading-is_no_plant_row :
    (row : MonitorRow) → is_absent (map_reading row) ≡ is_no_plant_row row
unfolding map_reading required nullable
map_reading-is_no_plant_row row = ground arith

pub meter_reading-is_no_meter_row :
    (row : MonitorRow) → is_absent (meter_reading row) ≡ is_no_meter_row row
unfolding meter_reading required
meter_reading-is_no_meter_row row = ground arith

pub map_reading_stamp :
    (row : MonitorRow) (r : PlantReadingOut)
    → map_reading row ≡ some r
    → row.recorded_at ≡ valid r.timestamp
unfolding map_reading required nullable
map_reading_stamp row r h = ground (arith, h)

pub meter_reading_stamp :
    (row : MonitorRow) (r : MeterReadingOut)
    → meter_reading row ≡ some r
    → row.recorded_at ≡ valid r.timestamp
unfolding meter_reading required
meter_reading_stamp row r h = ground (arith, h)

pub any_failing-any_of :
    {A : Type 0} (f : MonitorRow → Option A) (test : MonitorRow → Bool)
    → ((row : MonitorRow) → is_absent (f row) ≡ test row)
    → (rows : List MonitorRow) → any_failing f rows ≡ any_of test rows
any_failing-any_of f test h [] = refl
any_failing-any_of f test h (row ∷ rows) = rw (h row, any_failing-any_of f test h rows) refl

any_of_given :
    {A : Type 0} (test : A → Bool) (xs ys : List A)
    → some ys ≡ some xs
    → any_of test xs ≡ any_of test ys
any_of_given test xs ys e = ap (any_of test) (sym (some_injective ys xs e))
  where
    some_injective : {A : Type 0} (y z : A) → some y ≡ some z → y ≡ z
    some_injective y z k = cc

refused_if : {A : Type 0} (b : Bool) (a : A) → is_absent (if b then none else some a) ≡ b
refused_if true a = refl
refused_if false a = refl

module _ {A : Type 0} (f : MonitorRow → Option A) (stamp : A → Datetime)
    (stamped : (row : MonitorRow) (x : A)
      → f row ≡ some x
      → row.recorded_at ≡ valid (stamp x)) where
  any_of-collect :
      (test : Datetime → Bool) (rows : List MonitorRow) (xs : List A)
      → collect f rows ≡ some xs
      → any_of (λ x. test (stamp x)) xs ≡ any_of (has_time test) rows
  unfolding collect collect_one
  any_of-collect test [] [] h = refl
  any_of-collect test [] (x ∷ xs) h = absurd (ground (arith, h))
  any_of-collect test (row ∷ rows) xs h = elim (Option-cases (f row)) [
    | inl e ↦ absurd (ground (arith, h, e))
    | inr (x, e) ↦ elim (Option-cases (collect f rows)) [
      | inl g ↦ absurd (ground (arith, h, e, g))
      | inr (ys, g) ↦
          any_of_given (λ y. test (stamp y)) xs (x ∷ ys) (rw (collect, e, g, collect_one) at h)
          ∙ (rw (stamped row x e, any_of-collect test rows ys g) refl)
    ]
  ]

  pub is_absent-sorted_if_all :
      (rows : List MonitorRow)
      → is_absent (sorted_if_all stamp (collect f rows)) ≡ (any_failing f rows || mixes_times rows)
  unfolding sorted_if_all
  is_absent-sorted_if_all rows = elim (Option-cases (collect f rows)) [
    | inl e ↦ rw (← is_absent-collect f rows, e) refl
    | inr (xs, e) ↦
        rw
          (
            ← is_absent-collect f rows,
            e,
            any_of-collect is_aware rows xs e,
            any_of-collect is_naive rows xs e,
          )
          (refused_if (mixes_times rows) (sort_desc (λ a. (stamp a).instant) xs))
  ]
