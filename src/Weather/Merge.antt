-- ===== src/Weather/Merge.antt =====
-- Which point stands for an hour.
use esp32_home_display.Prelude.{
  ◌≡◌, refl, inl, inr, ◌||◌, Option, none, some, List, [], ◌∷◌, if◌then◌else◌, arith, Bool-cases,
  Option-cases,
}
use esp32_home_display.Text.{Str, str_eq}
use esp32_home_display.Text.Laws.{str_eq_iff}
use esp32_home_display.Dict.{Dict, lookup, insert, lookup-insert}
use esp32_home_display.Weather.{Point, is_forecast, is_absent, merge, dict_values}

-- The first point of an hour, and its last point from the forecast.
abbrev pub first_at : Str → List Point → Option Point
first_at t [] = none
first_at t (p ∷ ps) = if str_eq p.timestamp t then some p else first_at t ps

abbrev pub or_else : Option Point → Option Point → Option Point
or_else none other = other
or_else (some p) other = some p

abbrev pub last_forecast : Str → List Point → Option Point
last_forecast t [] = none
last_forecast t (p ∷ ps) =
    or_else (last_forecast t ps)
      (if str_eq p.timestamp t then (if is_forecast p.source then some p else none) else none)

-- The forecast's last word on the hour, else what came first.
abbrev pub preferred : Str → List Point → Option Point
preferred t ps = or_else (last_forecast t ps) (first_at t ps)

lookup-merge :
    (t : Str) (ps : List Point) (seen : Dict Point)
    → lookup (merge seen ps) t
      ≡ or_else (last_forecast t ps) (or_else (lookup seen t) (first_at t ps))
unfolding merge
lookup-merge t [] seen = elim (Option-cases (lookup seen t)) [
  | inl e ↦ rw e refl
  | inr (p, e) ↦ rw e refl
]
lookup-merge t (p ∷ ps) seen =
    elim (Bool-cases (is_absent (lookup seen p.timestamp) || is_forecast p.source)) [
      | inl e ↦ rw e (
          ground (
            arith,
            lookup-merge t ps (insert seen p.timestamp p),
            lookup-insert seen p.timestamp t p,
            str_eq_iff p.timestamp t,
          ))
      | inr e ↦ rw e (ground (arith, lookup-merge t ps seen, str_eq_iff p.timestamp t))
    ]

-- Every key is the timestamp of its point, and stands once.
abbrev IsKeyed : Dict Point → Type 0
IsKeyed [] = Unit {0}
IsKeyed ((k, p) ∷ d) = (p.timestamp ≡ k) × (lookup d k ≡ none) × IsKeyed d

insert-IsKeyed : (d : Dict Point) (p : Point) → IsKeyed d → IsKeyed (insert d p.timestamp p)
unfolding insert lookup
insert-IsKeyed [] p h = (refl, refl, tt)
insert-IsKeyed ((k, q) ∷ d) p h = elim (Bool-cases (str_eq k p.timestamp)) [
  | inl e ↦ rw e (refl, ground (arith, h.1, str_eq_iff k p.timestamp), h.2)
  | inr e ↦ rw e (
    h.0,
    ground (
      arith,
      h.1,
      lookup-insert d p.timestamp k p,
      str_eq_iff k p.timestamp,
      str_eq_iff p.timestamp k,
    ),
    insert-IsKeyed d p h.2,
  )
]

merge-IsKeyed : (ps : List Point) (seen : Dict Point) → IsKeyed seen → IsKeyed (merge seen ps)
unfolding merge
merge-IsKeyed [] seen h = h
merge-IsKeyed (p ∷ ps) seen h =
    elim (Bool-cases (is_absent (lookup seen p.timestamp) || is_forecast p.source)) [
      | inl e ↦ rw e (merge-IsKeyed ps (insert seen p.timestamp p) (insert-IsKeyed seen p h))
      | inr e ↦ rw e (merge-IsKeyed ps seen h)
    ]

first_at-dict_values :
    (t : Str) (d : Dict Point) → IsKeyed d → first_at t (dict_values d) ≡ lookup d t
unfolding lookup
first_at-dict_values t [] h = refl
first_at-dict_values t ((k, p) ∷ d) h = ground (arith, h.0, first_at-dict_values t d h.2)

-- Each hour stands once.
abbrev pub Distinct : List Point → Type 0
Distinct [] = Unit {0}
Distinct (p ∷ ps) = (first_at p.timestamp ps ≡ none) × Distinct ps

dict_values-Distinct : (d : Dict Point) → IsKeyed d → Distinct (dict_values d)
dict_values-Distinct [] h = tt
dict_values-Distinct ((k, p) ∷ d) h =
    (ground (arith, h.0, h.1, first_at-dict_values k d h.2), dict_values-Distinct d h.2)

pub merge-preferred :
    (t : Str) (ps : List Point) → first_at t (dict_values (merge [] ps)) ≡ preferred t ps
unfolding lookup
merge-preferred t ps =
    rw (first_at-dict_values t (merge [] ps) (merge-IsKeyed ps [] tt)) (lookup-merge t ps [])

pub merge-Distinct : (ps : List Point) → Distinct (dict_values (merge [] ps))
merge-Distinct ps = dict_values-Distinct (merge [] ps) (merge-IsKeyed ps [] tt)
