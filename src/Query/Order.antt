-- ===== src/Query/Order.antt =====
-- The order of the rows of a page or a window, and which rows they are.
use Prim.Native.Nat.{max}
use esp32_home_display.Prelude.{
  is_one_of, ◌-◌, ℕ, zero, suc, ◌≤◌, ◌≡◌, inl, inr, Bool, true, Option, none, some, List, [], ◌∷◌,
  take, leb, leb→le, arith, Bool-cases, All, All-mono, All-take,
}
use esp32_home_display.Text.{Str}
use esp32_home_display.Database.{Row}
use esp32_home_display.Query.{
  insert_latest, latest_first, select, on_page, in_window, bucket_of, first_of_buckets,
  choose_bucket_seconds, fetch_raw_readings, fetch_window_readings,
}

abbrev pub IsLatestFirst : List Row → Type 0
IsLatestFirst [] = Unit {0}
IsLatestFirst (r ∷ rs) = All (λ q. q.timestamp ≤ r.timestamp) rs × IsLatestFirst rs

pub All-insert_latest :
    (P : Row → Type 0) (r : Row) (rs : List Row) → P r → All P rs → All P (insert_latest r rs)
unfolding insert_latest
All-insert_latest P r [] p a = (p, tt)
All-insert_latest P r (q ∷ rs) p a = elim (Bool-cases (leb q.timestamp r.timestamp)) [
  | inl e ↦ rw e (p, a)
  | inr e ↦ rw e (a.0, All-insert_latest P r rs p a.1)
]

pub All-latest_first : (P : Row → Type 0) (rs : List Row) → All P rs → All P (latest_first rs)
unfolding latest_first
All-latest_first P [] a = tt
All-latest_first P (r ∷ rs) a =
    All-insert_latest P r (latest_first rs) a.0 (All-latest_first P rs a.1)

insert_latest-IsLatestFirst :
    (r : Row) (rs : List Row) → IsLatestFirst rs → IsLatestFirst (insert_latest r rs)
unfolding insert_latest
insert_latest-IsLatestFirst r [] h = (tt, tt)
insert_latest-IsLatestFirst r (q ∷ rs) h = elim (Bool-cases (leb q.timestamp r.timestamp)) [
  | inl e ↦ rw e (
    (
      leb→le q.timestamp r.timestamp e,
      All-mono (λ x. x.timestamp ≤ q.timestamp) (λ x. x.timestamp ≤ r.timestamp)
          (λ x k.
            before_both x.timestamp q.timestamp r.timestamp k (leb→le q.timestamp r.timestamp e))
          rs h.0,
    ),
    h,
  )
  | inr e ↦ rw e (
    All-insert_latest (λ x. x.timestamp ≤ q.timestamp) r rs (ground arith) h.0,
    insert_latest-IsLatestFirst r rs h.1,
  )
]
  where
    before_both : (a b c : ℕ) → a ≤ b → b ≤ c → a ≤ c
    before_both a b c h k = omega arith

pub latest_first-IsLatestFirst : (rs : List Row) → IsLatestFirst (latest_first rs)
unfolding latest_first
latest_first-IsLatestFirst [] = tt
latest_first-IsLatestFirst (r ∷ rs) =
    insert_latest-IsLatestFirst r (latest_first rs) (latest_first-IsLatestFirst rs)

pub All-select : (test : Row → Bool) (rs : List Row) → All (λ r. test r ≡ true) (select test rs)
All-select test [] = tt
All-select test (r ∷ rs) = elim (Bool-cases (test r)) [
  | inl e ↦ rw e (e, All-select test rs)
  | inr e ↦ rw e (All-select test rs)
]

take-IsLatestFirst : (n : ℕ) (rs : List Row) → IsLatestFirst rs → IsLatestFirst (take n rs)
take-IsLatestFirst zero rs h = tt
take-IsLatestFirst (suc n) [] h = tt
take-IsLatestFirst (suc n) (r ∷ rs) h =
    (All-take (λ q. q.timestamp ≤ r.timestamp) n rs h.0, take-IsLatestFirst n rs h.1)

module _ (b : ℕ) where
  pub All-first_of_buckets :
      (P : Row → Type 0) (seen : List ℕ) (rs : List Row)
      → All P rs
      → All P (first_of_buckets b seen rs)
  unfolding first_of_buckets
  All-first_of_buckets P seen [] a = tt
  All-first_of_buckets P seen (r ∷ rs) a =
      let bucket = bucket_of b r.timestamp in
      elim (Bool-cases (is_one_of bucket seen)) [
        | inl e ↦ rw e (All-first_of_buckets P (bucket ∷ seen) rs a.1)
        | inr e ↦ rw e (a.0, All-first_of_buckets P (bucket ∷ seen) rs a.1)
      ]

  first_of_buckets-IsLatestFirst :
      (seen : List ℕ) (rs : List Row)
      → IsLatestFirst rs
      → IsLatestFirst (first_of_buckets b seen rs)
  unfolding first_of_buckets
  first_of_buckets-IsLatestFirst seen [] h = tt
  first_of_buckets-IsLatestFirst seen (r ∷ rs) h =
      let bucket = bucket_of b r.timestamp in
      elim (Bool-cases (is_one_of bucket seen)) [
        | inl e ↦ rw e (first_of_buckets-IsLatestFirst (bucket ∷ seen) rs h.1)
        | inr e ↦ rw e (
          All-first_of_buckets (λ q. q.timestamp ≤ r.timestamp) (bucket ∷ seen) rs h.0,
          first_of_buckets-IsLatestFirst (bucket ∷ seen) rs h.1,
        )
      ]

pub fetch_raw_readings-IsLatestFirst :
    (mac : Str) (limit : ℕ) (before after : Option ℕ) (rows : List Row)
    → IsLatestFirst (fetch_raw_readings mac limit before after rows)
unfolding fetch_raw_readings
fetch_raw_readings-IsLatestFirst mac limit before after rows =
    take-IsLatestFirst limit (latest_first (select (on_page mac before after) rows))
      (latest_first-IsLatestFirst (select (on_page mac before after) rows))

pub All-fetch_raw_readings :
    (mac : Str) (limit : ℕ) (before after : Option ℕ) (rows : List Row)
    → All (λ r. on_page mac before after r ≡ true) (fetch_raw_readings mac limit before after rows)
unfolding fetch_raw_readings
All-fetch_raw_readings mac limit before after rows =
    All-take (λ r. on_page mac before after r ≡ true) limit
      (latest_first (select (on_page mac before after) rows))
      (All-latest_first (λ r. on_page mac before after r ≡ true)
        (select (on_page mac before after) rows) (All-select (on_page mac before after) rows))

pub fetch_window_readings-IsLatestFirst :
    (mac : Str) (a b : ℕ) (n : Option ℕ) (rows : List Row)
    → IsLatestFirst (fetch_window_readings mac a b n rows)
unfolding fetch_window_readings
fetch_window_readings-IsLatestFirst mac a b none rows =
    latest_first-IsLatestFirst (select (in_window mac a b) rows)
fetch_window_readings-IsLatestFirst mac a b (some n) rows =
    first_of_buckets-IsLatestFirst (choose_bucket_seconds (max 1_000_000 (b - a)) n) []
      (latest_first (select (in_window mac a b) rows))
      (latest_first-IsLatestFirst (select (in_window mac a b) rows))

pub All-fetch_window_readings :
    (mac : Str) (a b : ℕ) (n : Option ℕ) (rows : List Row)
    → All (λ r. in_window mac a b r ≡ true) (fetch_window_readings mac a b n rows)
unfolding fetch_window_readings
All-fetch_window_readings mac a b none rows =
    All-latest_first (λ r. in_window mac a b r ≡ true) (select (in_window mac a b) rows)
      (All-select (in_window mac a b) rows)
All-fetch_window_readings mac a b (some n) rows =
    All-first_of_buckets (choose_bucket_seconds (max 1_000_000 (b - a)) n)
      (λ r. in_window mac a b r ≡ true) [] (latest_first (select (in_window mac a b) rows))
      (All-latest_first (λ r. in_window mac a b r ≡ true) (select (in_window mac a b) rows)
        (All-select (in_window mac a b) rows))
