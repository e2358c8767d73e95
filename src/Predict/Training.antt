-- ===== src/Predict/Training.antt =====
-- Which hours the models learn from.
use esp32_home_display.Prelude.{
  ℕ, suc, ◌≡◌, refl, sym, ap, ◌∙◌, inl, inr, Bool, false, ◌&&◌, ◌||◌, ◌==◌, List, [], ◌∷◌, length,
  is_one_of, arith, Bool-cases, Option-cases, ==_iff,
}
use esp32_home_display.Text.{Str, codes}
use esp32_home_display.Float.{Float}
use esp32_home_display.Database.{Row}
use esp32_home_display.Sync.{sorted}
use esp32_home_display.Query.{insert_latest, latest_first}
use esp32_home_display.Predict.{
  Numerics, ByHour, get_hour, append_hour, hours, round_hour, append_value, hourly_values, means,
  hourly_avgs, OmEntry, add_row, rows_for, common, build_xy,
}
use esp32_home_display.Predict.Ascending.{keep, is_one_of-keep, keep-Increasing, length-Increasing}
use esp32_home_display.Predict.Hours.{
  present, Increasing, Distinct, is_one_of-sorted, sorted-Increasing, is_one_of-hours,
}

-- Some row of the hour has a value in the column.
abbrev pub has_value : Str → ℕ → List Row → Bool
has_value name h [] = false
has_value name h (row ∷ rows) =
    (present (row.values name) && round_hour row.timestamp == h) || has_value name h rows

has_value-insert_latest :
    (name : Str) (h : ℕ) (row : Row) (rows : List Row)
    → has_value name h (insert_latest row rows) ≡ has_value name h (row ∷ rows)
unfolding insert_latest
has_value-insert_latest name h row [] = refl
has_value-insert_latest name h row (r ∷ rs) = ground (arith, has_value-insert_latest name h row rs)

pub has_value-latest_first :
    (name : Str) (h : ℕ) (rows : List Row)
    → has_value name h (latest_first rows) ≡ has_value name h rows
unfolding latest_first
has_value-latest_first name h [] = refl
has_value-latest_first name h (row ∷ rows) =
    has_value-insert_latest name h row (latest_first rows)
    ∙ ap (λ rest. (present (row.values name) && round_hour row.timestamp == h) || rest)
        (has_value-latest_first name h rows)

module _ {V : Type 0} where
  present-append_hour :
      (d : ByHour (List V)) (h k : ℕ) (v : V)
      → present (get_hour (append_hour d h v) k) ≡ (present (get_hour d k) || h == k)
  unfolding get_hour append_hour
  present-append_hour [] h k v = ground arith
  present-append_hour ((j, vs) ∷ d) h k v = ground (arith, present-append_hour d h k v)

  append_hour-Distinct :
      (d : ByHour (List V)) (h : ℕ) (v : V)
      → Distinct (hours d)
      → Distinct (hours (append_hour d h v))
  unfolding hours append_hour
  append_hour-Distinct [] h v all = (refl, tt)
  append_hour-Distinct ((k, w) ∷ d) h v all = elim (Bool-cases (k == h)) [
    | inl e ↦ rw e (all.0, all.1)
    | inr e ↦ rw e (
      ground (
        arith,
        all.0,
        is_one_of-hours k (append_hour d h v),
        is_one_of-hours k d,
        present-append_hour d h k v,
      ),
      append_hour-Distinct d h v all.1,
    )
  ]

present-hourly_values :
    (name : Str) (h : ℕ) (d : ByHour (List Float)) (rows : List Row)
    → present (get_hour (hourly_values name d rows) h)
      ≡ (present (get_hour d h) || has_value name h rows)
unfolding hourly_values append_value
present-hourly_values name h d [] = ground arith
present-hourly_values name h d (row ∷ rows) = elim (Option-cases (row.values name)) [
  | inl e ↦ rw e (present-hourly_values name h d rows)
  | inr (v, e) ↦ rw e (
      ground (
        arith,
        present-hourly_values name h (append_hour d (round_hour row.timestamp) v) rows,
        present-append_hour d (round_hour row.timestamp) h v,
      ))
]

hourly_values-Distinct :
    (name : Str) (d : ByHour (List Float)) (rows : List Row)
    → Distinct (hours d)
    → Distinct (hours (hourly_values name d rows))
unfolding hourly_values append_value
hourly_values-Distinct name d [] all = all
hourly_values-Distinct name d (row ∷ rows) all = elim (Option-cases (row.values name)) [
  | inl e ↦ rw e (hourly_values-Distinct name d rows all)
  | inr (v, e) ↦ rw e (
      hourly_values-Distinct name (append_hour d (round_hour row.timestamp) v) rows
        (append_hour-Distinct d (round_hour row.timestamp) v all))
]

hours-means : (n : Numerics) (d : ByHour (List Float)) → hours (means n d) ≡ hours d
unfolding hours means
hours-means n [] = refl
hours-means n ((h, vs) ∷ d) = ap (λ hs. h ∷ hs) (hours-means n d)

is_one_of-common :
    (h : ℕ) (hs ks : List ℕ) → is_one_of h (common hs ks) ≡ (is_one_of h hs && is_one_of h ks)
unfolding common
is_one_of-common h [] ks = refl
is_one_of-common h (k ∷ hs) ks = elim (Bool-cases (k == h)) [
  | inl e ↦ ground (arith, is_one_of-common h hs ks, ap (λ x. is_one_of x ks) ((==_iff k h).0 e))
  | inr e ↦ ground (arith, is_one_of-common h hs ks)
]

common-Distinct : (hs ks : List ℕ) → Distinct hs → Distinct (common hs ks)
unfolding common
common-Distinct [] ks all = tt
common-Distinct (k ∷ hs) ks all = elim (Bool-cases (is_one_of k ks)) [
  | inl e ↦ rw e (ground (arith, all.0, is_one_of-common k hs ks), common-Distinct hs ks all.1)
  | inr e ↦ rw e (common-Distinct hs ks all.1)
]

length-rows_for :
    (n : Numerics) (t u : ByHour Float) (om : ByHour OmEntry) (ks : List ℕ)
    → length (rows_for n t u om ks)
      ≡ length (
          keep
            (λ k. present (get_hour om k) && (present (get_hour t k) && present (get_hour u k)))
            ks)
unfolding rows_for add_row
length-rows_for n t u om [] = refl
length-rows_for n t u om (k ∷ ks) = elim (Option-cases (get_hour om k)) [
  | inl e ↦ rw (rows_for, e) (length-rows_for n t u om ks)
  | inr (entry, e) ↦ elim (Option-cases (get_hour t k)) [
    | inl f ↦ rw (rows_for, e, f, add_row) (length-rows_for n t u om ks)
    | inr (temperature, f) ↦ elim (Option-cases (get_hour u k)) [
      | inl g ↦ rw (rows_for, e, f, g, add_row) (length-rows_for n t u om ks)
      | inr (humidity, g) ↦ rw (rows_for, e, f, g, add_row) (ap suc (length-rows_for n t u om ks))
    ]
  ]
]

module _ (n : Numerics) (om : ByHour OmEntry) (rows : List Row) where
  -- The hour has a temperature, a humidity and weather.
  abbrev pub is_training : ℕ → Bool
  is_training h =
      present (get_hour om h)
      && (has_value (codes "temperature_c") h rows && has_value (codes "humidity_pct") h rows)

  present-means :
      (name : Str) (h : ℕ)
      → present (get_hour (means n (hourly_values name [] rows)) h) ≡ has_value name h rows
  unfolding get_hour
  present-means name h =
      sym (is_one_of-hours h (means n (hourly_values name [] rows)))
      ∙ ap (is_one_of h) (hours-means n (hourly_values name [] rows))
      ∙ is_one_of-hours h (hourly_values name [] rows)
      ∙ present-hourly_values name h [] rows

  -- The hours that both columns share, and have weather, are the training hours.
  pub length-build_xy :
      (hs : List ℕ)
      → Increasing hs
      → ((h : ℕ) → is_one_of h hs ≡ is_training h)
      → length (build_xy n (hourly_avgs n rows).0 (hourly_avgs n rows).1 om) ≡ length hs
  unfolding build_xy hourly_avgs hours
  length-build_xy hs ascending members =
      let t = means n (hourly_values (codes "temperature_c") [] rows) in
      let u = means n (hourly_values (codes "humidity_pct") [] rows) in
      let shared = common (hours t) (hours u) in
      let test =
        λ (k : ℕ). present (get_hour om k) && (present (get_hour t k) && present (get_hour u k)) in
      length-rows_for n t u om (sorted shared)
      ∙ length-Increasing (keep test (sorted shared)) hs
          (keep-Increasing test (sorted shared) (
            sorted-Increasing shared (
              common-Distinct (hours t) (hours u) (
                rw (hours-means n (hourly_values (codes "temperature_c") [] rows))
                  (hourly_values-Distinct (codes "temperature_c") [] rows tt)))))
          ascending
          (λ h. ground (
            arith,
            is_one_of-keep test h (sorted shared),
            is_one_of-sorted h shared,
            is_one_of-common h (hours t) (hours u),
            is_one_of-hours h t,
            is_one_of-hours h u,
            present-means (codes "temperature_c") h,
            present-means (codes "humidity_pct") h,
            members h,
          ))
