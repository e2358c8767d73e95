-- ===== src/Predict/Hours.antt =====
-- Which hours are predicted, and within which range.
use esp32_home_display.Prelude.{
  ℕ, ◌<◌, ◌≡◌, refl, ◌∙◌, inl, inr, Bool, true, false, ◌&&◌, ◌||◌, ◌==◌, Option, none, some, List,
  [], ◌∷◌, leb, ltb, if◌then◌else◌, is_one_of, arith, Bool-cases, Option-cases, All, All-mono,
}
use esp32_home_display.Sync.{sorted, sorted_insert}
use esp32_home_display.Text.{codes}
use esp32_home_display.Predict.{Numerics, ByHour, get_hour, put_hour, hours, OmEntry}
use esp32_home_display.Predict.Fit.{Prediction}
use esp32_home_display.Predict.Route.{point_value, entry_of, add_point, om_by_hour}
use esp32_home_display.Weather.{Point}

abbrev pub present {ℓ} : {A : Type ℓ} → Option A → Bool
present none = false
present (some a) = true

-- Each number is greater than the one before it.
abbrev pub Increasing : List ℕ → Type 0
Increasing [] = Unit {0}
Increasing (x ∷ xs) = All (λ y. x < y) xs × Increasing xs

abbrev pub Distinct : List ℕ → Type 0
Distinct [] = Unit {0}
Distinct (x ∷ xs) = (is_one_of x xs ≡ false) × Distinct xs

is_one_of-sorted_insert :
    (h x : ℕ) (ys : List ℕ) → is_one_of h (sorted_insert x ys) ≡ (x == h || is_one_of h ys)
unfolding sorted_insert
is_one_of-sorted_insert h x [] = refl
is_one_of-sorted_insert h x (y ∷ ys) = ground (arith, is_one_of-sorted_insert h x ys)

pub is_one_of-sorted : (h : ℕ) (xs : List ℕ) → is_one_of h (sorted xs) ≡ is_one_of h xs
unfolding sorted
is_one_of-sorted h [] = refl
is_one_of-sorted h (x ∷ xs) =
    rw (is_one_of-sorted_insert h x (sorted xs), is_one_of-sorted h xs) refl

All-sorted_insert :
    (n x : ℕ) (ys : List ℕ) → n < x → All (λ y. n < y) ys → All (λ y. n < y) (sorted_insert x ys)
unfolding sorted_insert
All-sorted_insert n x [] h all = (h, tt)
All-sorted_insert n x (y ∷ ys) h all = elim (Bool-cases (leb x y)) [
  | inl e ↦ rw e (h, all)
  | inr e ↦ rw e (all.0, All-sorted_insert n x ys h all.1)
]

sorted_insert-Increasing :
    (x : ℕ) (ys : List ℕ) → is_one_of x ys ≡ false → Increasing ys → Increasing (sorted_insert x ys)
unfolding sorted_insert
sorted_insert-Increasing x [] new h = (tt, tt)
sorted_insert-Increasing x (y ∷ ys) new h = elim (Bool-cases (leb x y)) [
  | inl e ↦
      let first : x < y = ground arith in
      rw e ((first, All-mono _ _ (λ z after. omega arith) ys h.0), h)
  | inr e ↦ rw e (
    All-sorted_insert y x ys (ground arith) h.0,
    sorted_insert-Increasing x ys (ground arith) h.1,
  )
]

pub sorted-Increasing : (xs : List ℕ) → Distinct xs → Increasing (sorted xs)
unfolding sorted
sorted-Increasing [] h = tt
sorted-Increasing (x ∷ xs) h =
    sorted_insert-Increasing x (sorted xs) (rw (is_one_of-sorted x xs) h.0)
      (sorted-Increasing xs h.1)

module _ {V : Type 0} where
  pub is_one_of-hours : (h : ℕ) (d : ByHour V) → is_one_of h (hours d) ≡ present (get_hour d h)
  unfolding hours get_hour
  is_one_of-hours h [] = refl
  is_one_of-hours h ((k, v) ∷ d) = ground (arith, is_one_of-hours h d)

  get_hour-put_hour :
      (d : ByHour V) (h k : ℕ) (v : V)
      → get_hour (put_hour d h v) k ≡ (if h == k then some v else get_hour d k)
  unfolding get_hour put_hour
  get_hour-put_hour [] h k v = refl
  get_hour-put_hour ((j, w) ∷ d) h k v = ground (arith, get_hour-put_hour d h k v)

  put_hour-Distinct :
      (d : ByHour V) (h : ℕ) (v : V) → Distinct (hours d) → Distinct (hours (put_hour d h v))
  unfolding hours put_hour
  put_hour-Distinct [] h v all = (refl, tt)
  put_hour-Distinct ((k, w) ∷ d) h v all = elim (Bool-cases (k == h)) [
    | inl e ↦ rw e (ground (arith, all.0), all.1)
    | inr e ↦ rw e (
      ground (
        arith,
        all.0,
        is_one_of-hours k (put_hour d h v),
        is_one_of-hours k d,
        get_hour-put_hour d h k v,
      ),
      put_hour-Distinct d h v all.1,
    )
  ]

-- Some point with a temperature is of the hour.
abbrev pub has_weather : Numerics → ℕ → List Point → Bool
has_weather n h [] = false
has_weather n h (p ∷ ps) =
    (present (point_value (codes "temperature_2m") p) && n.hour_of_text p.timestamp == h)
    || has_weather n h ps

present-put_hour :
    {V : Type 0} (d : ByHour V) (h k : ℕ) (v : V) (rest : Bool)
    → (present (get_hour (put_hour d h v) k) || rest) ≡ (present (get_hour d k) || (h == k || rest))
present-put_hour d h k v rest = elim (Option-cases (get_hour d k)) [
  | inl e ↦ ground (arith, get_hour-put_hour d h k v)
  | inr (w, e) ↦ ground (arith, get_hour-put_hour d h k v)
]

pub get_hour-om_by_hour :
    (n : Numerics) (h : ℕ) (om : ByHour OmEntry) (ps : List Point)
    → present (get_hour (om_by_hour n om ps) h) ≡ (present (get_hour om h) || has_weather n h ps)
unfolding om_by_hour add_point
get_hour-om_by_hour n h om [] = ground arith
get_hour-om_by_hour n h om (p ∷ ps) = elim (Option-cases (point_value (codes "temperature_2m") p)) [
  | inl e ↦ rw e (get_hour-om_by_hour n h om ps)
  | inr (outdoor, e) ↦ rw e (
      get_hour-om_by_hour n h (put_hour om (n.hour_of_text p.timestamp) (entry_of outdoor p)) ps
      ∙ present-put_hour om (n.hour_of_text p.timestamp) h (entry_of outdoor p)
          (has_weather n h ps))
]

pub om_by_hour-Distinct :
    (n : Numerics) (om : ByHour OmEntry) (ps : List Point)
    → Distinct (hours om)
    → Distinct (hours (om_by_hour n om ps))
unfolding om_by_hour add_point
om_by_hour-Distinct n om [] all = all
om_by_hour-Distinct n om (p ∷ ps) all =
    elim (Option-cases (point_value (codes "temperature_2m") p)) [
      | inl e ↦ rw e (om_by_hour-Distinct n om ps all)
      | inr (outdoor, e) ↦ rw e (
          om_by_hour-Distinct n (put_hour om (n.hour_of_text p.timestamp) (entry_of outdoor p)) ps
            (put_hour-Distinct om (n.hour_of_text p.timestamp) (entry_of outdoor p) all))
    ]

-- The hours of the predictions.
abbrev pub predicted : List Prediction → List ℕ
predicted [] = []
predicted (p ∷ ps) = p.hour ∷ predicted ps

-- The hours, of those from `start` on, that have weather.
abbrev pub wanted : ByHour OmEntry → ℕ → List ℕ → List ℕ
wanted om start [] = []
wanted om start (k ∷ ks) =
    let rest = wanted om start ks in
    if ltb k start then rest else if present (get_hour om k) then k ∷ rest else rest

module _ (om : ByHour OmEntry) (start : ℕ) where
  pub is_one_of-wanted :
      (h : ℕ) (ks : List ℕ)
      → is_one_of h (wanted om start ks)
        ≡ (is_one_of h ks && (leb start h && present (get_hour om h)))
  is_one_of-wanted h [] = refl
  is_one_of-wanted h (k ∷ ks) = elim (Bool-cases (ltb k start)) [
    | inl e ↦ rw e (ground (arith, is_one_of-wanted h ks))
    | inr e ↦ elim (Bool-cases (present (get_hour om k))) [
      | inl at ↦ rw (e, at) (ground (arith, is_one_of-wanted h ks))
      | inr none_at ↦ rw (e, none_at) (ground (arith, is_one_of-wanted h ks))
    ]
  ]

  wanted-All : (x : ℕ) (ks : List ℕ) → All (λ y. x < y) ks → All (λ y. x < y) (wanted om start ks)
  wanted-All x [] all = tt
  wanted-All x (k ∷ ks) all = elim (Bool-cases (ltb k start)) [
    | inl e ↦ rw e (wanted-All x ks all.1)
    | inr e ↦ elim (Bool-cases (present (get_hour om k))) [
      | inl at ↦ rw (e, at) (all.0, wanted-All x ks all.1)
      | inr none_at ↦ rw (e, none_at) (wanted-All x ks all.1)
    ]
  ]

  pub wanted-Increasing : (ks : List ℕ) → Increasing ks → Increasing (wanted om start ks)
  wanted-Increasing [] h = tt
  wanted-Increasing (k ∷ ks) h = elim (Bool-cases (ltb k start)) [
    | inl e ↦ rw e (wanted-Increasing ks h.1)
    | inr e ↦ elim (Bool-cases (present (get_hour om k))) [
      | inl at ↦ rw (e, at) (wanted-All k ks h.0, wanted-Increasing ks h.1)
      | inr none_at ↦ rw (e, none_at) (wanted-Increasing ks h.1)
    ]
  ]
