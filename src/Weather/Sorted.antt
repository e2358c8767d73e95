-- ===== src/Weather/Sorted.antt =====
-- The answer: every hour once, in order, with the point that is preferred for it.
use esp32_home_display.Prelude.{
  ◌≡◌, ◌≢◌, ◌∙◌, refl, inl, inr, Bool, true, false, Option, none, some, List, [], ◌∷◌,
  if◌then◌else◌, arith, Bool-cases, All, ℕ, All-mono,
}
use esp32_home_display.Text.{Str, str_eq}
use esp32_home_display.Text.Laws.{str_eq_iff}
use esp32_home_display.Weather.{
  Point, Hourly, MeteoRequest, dict_values, merge, str_leb, insert_by_time, by_time, gather, merged,
}
use esp32_home_display.Weather.Merge.{
  first_at, preferred, Distinct, merge-preferred, merge-Distinct,
}

-- The first timestamp is before the second.
abbrev pub is_before : Str → Str → Bool
is_before s t = if str_leb t s then false else true

str_leb_trans : (r s t : Str) → str_leb s r ≡ false → str_leb t s ≡ false → str_leb t r ≡ false
unfolding str_leb
str_leb_trans r [] t h g = absurd (ground arith)
str_leb_trans r (d ∷ s) [] h g = absurd (ground arith)
str_leb_trans [] (d ∷ s) (e ∷ t) h g = ground arith
str_leb_trans (c ∷ r) (d ∷ s) (e ∷ t) h g = ground (arith, str_leb_trans r s t)

str_leb_antisym : (s t : Str) → str_leb s t ≡ true → str_eq s t ≡ false → str_leb t s ≡ false
unfolding str_leb str_eq
str_leb_antisym [] [] h g = absurd (ground arith)
str_leb_antisym [] (d ∷ t) h g = refl
str_leb_antisym (c ∷ s) [] h g = absurd (ground arith)
str_leb_antisym (c ∷ s) (d ∷ t) h g = ground (arith, str_leb_antisym s t)

str_leb_refl : (s : Str) → str_leb s s ≡ true
unfolding str_leb
str_leb_refl [] = refl
str_leb_refl (c ∷ s) = ground (arith, str_leb_refl s)

abbrev pub Ascending : List Point → Type 0
Ascending [] = Unit {0}
Ascending (p ∷ ps) = All (λ q. is_before p.timestamp q.timestamp ≡ true) ps × Ascending ps

is_before_trans : (r s t : Str) → is_before r s ≡ true → is_before s t ≡ true → is_before r t ≡ true
is_before_trans r s t h g = ground (arith, str_leb_trans r s t)

first_at-insert_by_time :
    (t : Str) (p : Point) (ps : List Point)
    → first_at t (insert_by_time p ps) ≡ (if str_eq p.timestamp t then some p else first_at t ps)
unfolding insert_by_time
first_at-insert_by_time t p [] = refl
first_at-insert_by_time t p (q ∷ qs) = elim (Bool-cases (str_leb p.timestamp q.timestamp)) [
  | inl e ↦ rw e refl
  | inr e ↦ rw e (
      ground (
        arith,
        first_at-insert_by_time t p qs,
        str_eq_iff p.timestamp t,
        str_eq_iff q.timestamp t,
        differ e,
      ))
]
  where
    differ : str_leb p.timestamp q.timestamp ≡ false → p.timestamp ≢ q.timestamp
    differ e same = cc (e, same, str_leb_refl p.timestamp)

first_at-by_time : (t : Str) (ps : List Point) → first_at t (by_time ps) ≡ first_at t ps
unfolding by_time
first_at-by_time t [] = refl
first_at-by_time t (p ∷ ps) =
    rw (first_at-insert_by_time t p (by_time ps), first_at-by_time t ps) refl

abbrev Follows : Str → List Point → Type 0
Follows s = All (λ q. is_before s q.timestamp ≡ true)

insert_by_time-Follows :
    (s : Str) (p : Point) (ps : List Point)
    → is_before s p.timestamp ≡ true
    → Follows s ps
    → Follows s (insert_by_time p ps)
unfolding insert_by_time
insert_by_time-Follows s p [] h all = (h, tt)
insert_by_time-Follows s p (q ∷ qs) h all = elim (Bool-cases (str_leb p.timestamp q.timestamp)) [
  | inl e ↦ rw e (h, all)
  | inr e ↦ rw e (all.0, insert_by_time-Follows s p qs h all.1)
]

insert_by_time-Ascending :
    (p : Point) (ps : List Point)
    → first_at p.timestamp ps ≡ none
    → Ascending ps
    → Ascending (insert_by_time p ps)
unfolding insert_by_time
insert_by_time-Ascending p [] new h = (tt, tt)
insert_by_time-Ascending p (q ∷ qs) new h = elim (Bool-cases (str_eq q.timestamp p.timestamp)) [
  | inl same ↦ absurd (ground arith)
  | inr other ↦ elim (Bool-cases (str_leb p.timestamp q.timestamp)) [
    | inl e ↦
        let first : is_before p.timestamp q.timestamp ≡ true = ground (
          arith,
          str_leb_antisym p.timestamp q.timestamp e,
          str_eq_iff p.timestamp q.timestamp,
          str_eq_iff q.timestamp p.timestamp,
        ) in
        rw e (
          (
            first,
            All-mono _ _
                (λ r after. is_before_trans p.timestamp q.timestamp r.timestamp first after) qs h.0,
          ),
          h,
        )
    | inr e ↦ rw e (
      insert_by_time-Follows q.timestamp p qs (ground arith) h.0,
      insert_by_time-Ascending p qs (ground arith) h.1,
    )
  ]
]

by_time-Ascending : (ps : List Point) → Distinct ps → Ascending (by_time ps)
unfolding by_time
by_time-Ascending [] h = tt
by_time-Ascending (p ∷ ps) h =
    insert_by_time-Ascending p (by_time ps) (rw (first_at-by_time p.timestamp ps) h.0)
      (by_time-Ascending ps h.1)

-- Whatever Open-Meteo answers to the three requests: the merged weather is in strictly ascending order
-- of its timestamps, and its point of an hour is the last one that the forecast gives for it, else
-- the first that there is among the points gathered; an hour without points has none.
pub merged-Ascending :
    (get : MeteoRequest → Option Hourly) (lat lon : Str) (today start_date end_date : ℕ)
    → Ascending (merged get lat lon today start_date end_date)
      × ((t : Str)
          → first_at t (merged get lat lon today start_date end_date)
            ≡ preferred t (gather get lat lon today start_date end_date))
unfolding merged
merged-Ascending get lat lon today start_date end_date =
    let points = gather get lat lon today start_date end_date in
    (
      by_time-Ascending (dict_values (merge [] points)) (merge-Distinct points),
      λ t. first_at-by_time t (dict_values (merge [] points)) ∙ merge-preferred t points,
    )
