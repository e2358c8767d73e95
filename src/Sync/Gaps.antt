-- ===== src/Sync/Gaps.antt =====
-- The intervals between sorted timestamps.
use esp32_home_display.Prelude.{
  All, All-mono, ℕ, zero, suc, ◌+◌, ◌≤◌, ◌<◌, ◌≡◌, ◌⊎◌, Bool, true, false, ◌||◌, ◌&&◌, List, [],
  ◌∷◌, pos, sub_ℕ, ltb_ℤ, drop, ltb, leb, leb→le, arith, inl, inr, Bool-cases,
}
use esp32_home_display.Sync.{Interval, sorted, sorted_insert, gaps}

abbrev pub IsSorted : List ℕ → Type 0
IsSorted [] = Unit {0}
IsSorted (x ∷ xs) = All (λ y. x ≤ y) xs × IsSorted xs

pub All-sorted_insert :
    (P : ℕ → Type 0) (x : ℕ) (ys : List ℕ) → P x → All P ys → All P (sorted_insert x ys)
unfolding sorted_insert
All-sorted_insert P x [] p a = (p, tt)
All-sorted_insert P x (y ∷ ys) p a = elim (Bool-cases (leb x y)) [
  | inl e ↦ rw e (p, a)
  | inr e ↦ rw e (a.0, All-sorted_insert P x ys p a.1)
]

sorted_insert-IsSorted : (x : ℕ) (ys : List ℕ) → IsSorted ys → IsSorted (sorted_insert x ys)
unfolding sorted_insert
sorted_insert-IsSorted x [] h = (tt, tt)
sorted_insert-IsSorted x (y ∷ ys) h = elim (Bool-cases (leb x y)) [
  | inl e ↦ rw e (
    (
      leb→le x y e,
      All-mono (λ z. y ≤ z) (λ z. x ≤ z) (λ z k. le_after x y z (leb→le x y e) k) ys h.0,
    ),
    h,
  )
  | inr e ↦
      rw e (All-sorted_insert (λ z. y ≤ z) x ys (ground arith) h.0, sorted_insert-IsSorted x ys h.1)
]
  where
    le_after : (a b c : ℕ) → a ≤ b → b ≤ c → a ≤ c
    le_after a b c h k = omega arith

pub sorted-IsSorted : (xs : List ℕ) → IsSorted (sorted xs)
unfolding sorted
sorted-IsSorted [] = tt
sorted-IsSorted (x ∷ xs) = sorted_insert-IsSorted x (sorted xs) (sorted-IsSorted xs)

drop-IsSorted : (n : ℕ) (xs : List ℕ) → IsSorted xs → IsSorted (drop n xs)
drop-IsSorted zero xs h = h
drop-IsSorted (suc n) [] h = h
drop-IsSorted (suc n) (x ∷ xs) h = drop-IsSorted n xs h.1

-- The interval is at least as long as the threshold, and no reading falls inside it.
abbrev pub IsGap : ℕ → List ℕ → Interval → Type 0
IsGap gap_threshold timestamps i =
    (i.start + gap_threshold ≤ i.end) × All (λ t. (t ≤ i.start) ⊎ (i.end ≤ t)) timestamps

pub gaps_after :
    (gap x : ℕ) (ts : List ℕ) → All (λ t. x ≤ t) ts → All (λ i. x ≤ i.start) (gaps gap ts)
unfolding gaps
gaps_after gap x [] a = tt
gaps_after gap x (t ∷ []) a = tt
gaps_after gap x (t ∷ u ∷ ts) a = elim (Bool-cases (ltb_ℤ (sub_ℕ u t) (pos gap))) [
  | inl e ↦ rw e (gaps_after gap x (u ∷ ts) a.1)
  | inr e ↦ rw e (a.0, gaps_after gap x (u ∷ ts) a.1)
]

module _ (gap : ℕ) where
  -- An earlier reading does not fall into a later interval.
  pub extend_gaps :
      (x : ℕ) (ts : List ℕ) (is : List Interval)
      → All (λ i. x ≤ i.start) is
      → All (IsGap gap ts) is
      → All (IsGap gap (x ∷ ts)) is
  extend_gaps x ts [] a h = tt
  extend_gaps x ts (i ∷ is) a h = ((h.0.0, (inl a.0, h.0.1)), extend_gaps x ts is a.1 h.1)

  pub gaps-IsGap : (ts : List ℕ) → IsSorted ts → All (IsGap gap ts) (gaps gap ts)
  unfolding gaps
  gaps-IsGap [] h = tt
  gaps-IsGap (x ∷ []) h = tt
  gaps-IsGap (x ∷ y ∷ ts) h =
      let later =
        extend_gaps x (y ∷ ts) (gaps gap (y ∷ ts)) (gaps_after gap x (y ∷ ts) h.0)
          (gaps-IsGap (y ∷ ts) h.1) in
      elim (Bool-cases (ltb_ℤ (sub_ℕ y x) (pos gap))) [
        | inl e ↦ rw e later
        | inr e ↦ rw e (
          (
            ground arith,
            (
              inl (omega arith),
              (
                inr (omega arith),
                All-mono (λ t. y ≤ t) (λ t. (t ≤ x) ⊎ (y ≤ t)) (λ t k. inr k) ts h.1.0,
              ),
            ),
          ),
          later,
        )
      ]

abbrev pub last_of : ℕ → List ℕ → ℕ
last_of x [] = x
last_of x (y ∷ ys) = last_of y ys

-- A reading was taken at `t`, or less than the threshold before it.
abbrev pub is_near : ℕ → ℕ → List ℕ → Bool
is_near gap t [] = false
is_near gap t (s ∷ ss) = (leb s t && ltb t (s + gap)) || is_near gap t ss

abbrev pub is_inside : ℕ → List Interval → Bool
is_inside t [] = false
is_inside t (i ∷ is) = (leb i.start t && ltb t i.end) || is_inside t is

-- Every moment between the first and the last reading has a reading less than the threshold before
-- it, or lies in one of the intervals.
pub gaps_cover :
    (gap t first : ℕ) (rest : List ℕ)
    → first ≤ t
    → t < last_of first rest
    → (is_near gap t (first ∷ rest) || is_inside t (gaps gap (first ∷ rest))) ≡ true
unfolding gaps
gaps_cover gap t x [] h k = absurd (omega arith)
gaps_cover gap t x (y ∷ ys) h k = elim (Bool-cases (leb y t)) [
  | inl e ↦ ground (arith, gaps_cover gap t y ys (leb→le y t e) k)
  | inr e ↦ ground arith
]
