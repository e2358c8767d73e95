-- ===== src/Predict/Ascending.antt =====
-- Ascending lists of hours, which their members determine.
use esp32_home_display.Prelude.{
  ℕ, suc, ◌<◌, ◌≤◌, ◌≡◌, refl, sym, ap, ◌∙◌, inl, inr, Bool, false, ◌&&◌, List, [], ◌∷◌, length,
  ltb, if◌then◌else◌, is_one_of, arith, Bool-cases, All, All-mono, ==_iff, ◌==◌,
}
use esp32_home_display.Predict.Hours.{Increasing}

abbrev pub keep : (ℕ → Bool) → List ℕ → List ℕ
keep test [] = []
keep test (k ∷ ks) = let rest = keep test ks in if test k then k ∷ rest else rest

pub is_one_of-keep :
    (test : ℕ → Bool) (h : ℕ) (ks : List ℕ)
    → is_one_of h (keep test ks) ≡ (is_one_of h ks && test h)
is_one_of-keep test h [] = refl
is_one_of-keep test h (k ∷ ks) = elim (Bool-cases (k == h)) [
  | inl e ↦ ground (arith, is_one_of-keep test h ks, ap test ((==_iff k h).0 e))
  | inr e ↦ ground (arith, is_one_of-keep test h ks)
]

All-keep :
    (test : ℕ → Bool) (n : ℕ) (ks : List ℕ) → All (λ k. n < k) ks → All (λ k. n < k) (keep test ks)
All-keep test n [] all = tt
All-keep test n (k ∷ ks) all = elim (Bool-cases (test k)) [
  | inl e ↦ rw e (all.0, All-keep test n ks all.1)
  | inr e ↦ rw e (All-keep test n ks all.1)
]

pub keep-Increasing : (test : ℕ → Bool) (ks : List ℕ) → Increasing ks → Increasing (keep test ks)
keep-Increasing test [] h = tt
keep-Increasing test (k ∷ ks) h = elim (Bool-cases (test k)) [
  | inl e ↦ rw e (All-keep test k ks h.0, keep-Increasing test ks h.1)
  | inr e ↦ rw e (keep-Increasing test ks h.1)
]

not_one_of : (n : ℕ) (ks : List ℕ) → All (λ k. n < k) ks → is_one_of n ks ≡ false
not_one_of n [] all = refl
not_one_of n (k ∷ ks) all = ground (arith, all.0, not_one_of n ks all.1)

below : (m n : ℕ) (ks : List ℕ) → m ≤ n → All (λ k. n < k) ks → All (λ k. m < k) ks
below m n ks h all = All-mono _ _ (λ k after. omega arith) ks all

same_head :
    (x y : ℕ) (xs ys : List ℕ)
    → All (λ k. x < k) xs
    → All (λ k. y < k) ys
    → is_one_of x (x ∷ xs) ≡ is_one_of x (y ∷ ys)
    → is_one_of y (x ∷ xs) ≡ is_one_of y (y ∷ ys)
    → x ≡ y
same_head x y xs ys h g at_x at_y = elim (Bool-cases (ltb x y)) [
  | inl e ↦ absurd (ground (arith, not_one_of x ys (below x y ys (ground arith) g)))
  | inr e ↦ elim (Bool-cases (ltb y x)) [
    | inl f ↦ absurd (ground (arith, not_one_of y xs (below y x xs (ground arith) h)))
    | inr f ↦ ground arith
  ]
]

-- An ascending list is determined by its members.
pub length-Increasing :
    (xs ys : List ℕ)
    → Increasing xs
    → Increasing ys
    → ((h : ℕ) → is_one_of h xs ≡ is_one_of h ys)
    → length xs ≡ length ys
length-Increasing [] [] h g same = refl
length-Increasing [] (y ∷ ys) h g same = absurd (ground (arith, same y))
length-Increasing (x ∷ xs) [] h g same = absurd (ground (arith, same x))
length-Increasing (x ∷ xs) (y ∷ ys) h g same =
    let head = same_head x y xs ys h.0 g.0 (same x) (same y) in
    ap suc (length-Increasing xs ys h.1 g.1 (λ k. rest k head))
  where
    rest : (k : ℕ) → x ≡ y → is_one_of k xs ≡ is_one_of k ys
    rest k head = elim (Bool-cases (x == k)) [
      | inl e ↦ ground (
        arith,
        not_one_of x xs h.0,
        not_one_of y ys g.0,
        ap (λ z. is_one_of z xs) ((==_iff x k).0 e),
        ap (λ z. is_one_of z ys) (sym head ∙ (==_iff x k).0 e),
      )
      | inr e ↦ ground (arith, same k, head)
    ]
