-- ===== src/History/Pages.antt =====
-- The plan of the pages reads every sample of the range that was asked for.
use Prim.Native.Nat.{min, max}
use native.Mathlib.Nat.{div-le_of_le-mul, le-div_iff_mul-le, mul_comm, suc-mul}
use esp32_home_display.Prelude.{
  ℕ, zero, suc, ◌+◌, ◌-◌, ◌*◌, ◌/◌, ◌≤◌, ◌<◌, ◌≡◌, refl, ◌∙◌, inl, inr, Bool, true, false, ◌&&◌,
  ◌||◌, none, some, List, [], ◌∷◌, ℤ, pos, negsuc, sub_ℕ, ltb, lt→ltb, leb, leb_ℤ, ltb_ℤ, ◌==◌,
  arith, Bool-cases,
}
use esp32_home_display.History.{Metadata, PageRequest, epoch_to_index, rounded, clamp, since}
use esp32_home_display.History.Plan.{
  Args, unfinished, planned, page_loop, bound_of, plan_range, build_page_plan,
}

-- The index is in one of the pages.
abbrev pub is_requested : ℕ → List PageRequest → Bool
is_requested k [] = false
is_requested k (r ∷ rs) = (leb r.index k && ltb k (r.index + r.count)) || is_requested k rs

still_requested :
    (k index count end_index : ℕ) (rest : List PageRequest)
    → index ≤ k
    → k < end_index
    → (index + count ≤ k → k < end_index → is_requested k rest ≡ true)
    → is_requested k (record { index = index; count = count } ∷ rest) ≡ true
still_requested k index count end_index rest low high held =
    elim (Bool-cases (ltb k (index + count))) [
      | inl e ↦ ground arith
      | inr e ↦ ground (arith, held (ground arith) high)
    ]

-- With pages of at least one sample the loop ends, and its pages hold every index of the range.
page_loop_covers :
    (fuel count index end_index : ℕ)
    → 1 ≤ count
    → end_index - index < fuel
    → (requests : List PageRequest) × (page_loop fuel count index end_index ≡ planned requests)
      × ((k : ℕ) → index ≤ k → k < end_index → is_requested k requests ≡ true)
unfolding page_loop
page_loop_covers zero count index end_index h enough = absurd (omega arith)
page_loop_covers (suc fuel) count index end_index h enough =
    elim (Bool-cases (ltb index end_index)) [
      | inr e ↦ rw e ([], refl, λ k low high. absurd (ground arith))
      | inl e ↦
          let (rest, run, held) =
            page_loop_covers fuel count (index + count) end_index h (ground arith) in
          rw (e, run)
            (
              record { index = index; count = count } ∷ rest,
              refl,
              λ k low high. still_requested k index count end_index rest low high (held k),
            )
    ]

clamp_neg : (limit x : ℕ) → clamp limit (sub_ℕ 0 x) ≡ 0
unfolding clamp
clamp_neg limit x = elim (Bool-cases (leb x 0)) [ inl e ↦ rw e (omega arith) | inr e ↦ rw e refl ]

-- A sample at or after the start of the range has at least the index of the start, and one before
-- its end a smaller one than the end.
rounded_below :
    (start i k limit : ℕ) (epoch : ℤ)
    → 1 ≤ i
    → leb_ℤ epoch (pos (start + k * i)) ≡ true
    → clamp limit (rounded false (since epoch start) i) ≤ k
unfolding rounded
rounded_below start i k limit (negsuc n) h e =
    omega (arith, clamp_neg limit ((suc (n + start) + i - 1) / i))
rounded_below start i k limit (pos x) h e = elim (Bool-cases (leb start x)) [
  | inl f ↦ rw f (min_below (div-le_of_le-mul i {m = x - start} {n = k} (small (ground arith))))
  | inr f ↦ rw f (omega (arith, clamp_neg limit ((suc (start - x - 1) + i - 1) / i)))
]
  where
    small : x ≤ start + k * i → x - start ≤ i * k
    small g = omega (arith, g, mul_comm i k)

    min_below : (x - start) / i ≤ k → clamp limit (pos ((x - start) / i)) ≤ k
    min_below g = unfold clamp in omega (arith, g)

rounded_above :
    (start i k limit : ℕ) (epoch : ℤ)
    → 1 ≤ i
    → k < limit
    → ltb_ℤ (pos (start + k * i)) epoch ≡ true
    → k < clamp limit (rounded true (since epoch start) i)
unfolding rounded
rounded_above start i k limit (negsuc n) h low e = absurd (ground arith)
rounded_above start i k limit (pos x) h low e = elim (Bool-cases (leb start x)) [
  | inl f ↦ rw f (
      min_above (
        (le-div_iff_mul-le {k = i} {x = suc k} {y = x - start + i - 1} h).1 (large (ground arith))))
  | inr f ↦ absurd (ground arith)
]
  where
    large : start + k * i < x → suc k * i ≤ x - start + i - 1
    large g = omega (arith, g, suc-mul k i)

    min_above : suc k ≤ (x - start + i - 1) / i → k < clamp limit (pos ((x - start + i - 1) / i))
    min_above g = unfold clamp in omega (arith, g, low)

plan_of_times :
    (fuel : ℕ) (args : Args) (m : Metadata) (start end : ℤ)
    → args.start_epoch ≡ some start
    → args.end_epoch ≡ some end
    → args.start_index ≡ none
    → args.end_index ≡ none
    → 1 ≤ m.interval_seconds
    → build_page_plan fuel args m
      ≡ page_loop fuel args.page_count
          (min m.end_index
            (clamp m.end_index (rounded false (since start m.start_epoch) m.interval_seconds)))
          (max
            (min m.end_index
              (clamp m.end_index (rounded false (since start m.start_epoch) m.interval_seconds)))
            (min m.end_index
              (clamp m.end_index (rounded true (since end m.start_epoch) m.interval_seconds))))
unfolding build_page_plan bound_of plan_range epoch_to_index
plan_of_times fuel args m start end e1 e2 e3 e4 interval =
    let divides : (m.interval_seconds == 0) ≡ false = ground arith in
    rw (e1, e2, e3, e4, divides) refl

-- The plan for a range of times, if it is made with pages of at least one sample, ends after at most
-- as many turns as there are samples, and its pages hold every stored sample whose time is in the
-- range.
pub build_page_plan_covers :
    (args : Args) (m : Metadata) (start end : ℤ) (k : ℕ)
    → args.start_epoch ≡ some start
    → args.end_epoch ≡ some end
    → args.start_index ≡ none
    → args.end_index ≡ none
    → 1 ≤ args.page_count
    → 1 ≤ m.interval_seconds
    → k < m.end_index
    → leb_ℤ start (pos (m.start_epoch + k * m.interval_seconds)) ≡ true
    → ltb_ℤ (pos (m.start_epoch + k * m.interval_seconds)) end ≡ true
    → (requests : List PageRequest) × (build_page_plan (suc m.end_index) args m ≡ planned requests)
      × (is_requested k requests ≡ true)
build_page_plan_covers args m start end k e1 e2 e3 e4 one interval stored low high =
    let i = m.interval_seconds in
    let first = clamp m.end_index (rounded false (since start m.start_epoch) i) in
    let after = clamp m.end_index (rounded true (since end m.start_epoch) i) in
    let from = min m.end_index first in
    let to = max from (min m.end_index after) in
    let (requests, run, held) =
      page_loop_covers (suc m.end_index) args.page_count from to one (omega arith) in
    (
      requests,
      plan_of_times (suc m.end_index) args m start end e1 e2 e3 e4 interval ∙ run,
      held k (omega (arith, rounded_below m.start_epoch i k m.end_index start interval low))
          (omega (arith, rounded_above m.start_epoch i k m.end_index end interval stored high)),
    )

-- With pages of no sample the loop over a range that is not empty never ends, whatever the fuel.
pub page_loop-unfinished :
    (fuel index end_index : ℕ) → index < end_index → page_loop fuel 0 index end_index ≡ unfinished
unfolding page_loop
page_loop-unfinished zero index end_index h = refl
page_loop-unfinished (suc fuel) index end_index h =
    ground (arith, lt→ltb index end_index h, page_loop-unfinished fuel index end_index h)
