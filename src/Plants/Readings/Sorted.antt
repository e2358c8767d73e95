-- ===== src/Plants/Readings/Sorted.antt =====
-- The stable sort of the readings.
use esp32_home_display.Prelude.{
  ℕ, ◌≤◌, ◌≡◌, refl, inl, inr, List, [], ◌∷◌, leb, ◌==◌, if◌then◌else◌, arith, Bool-cases, All,
}
use esp32_home_display.Plants.Readings.{insert_desc, sort_desc}

module _ {A : Type 0} (key : A → ℕ) where
  abbrev pub NewestFirst : List A → Type 0
  NewestFirst [] = Unit {0}
  NewestFirst (a ∷ xs) = All (λ b. key b ≤ key a) xs × NewestFirst xs

  -- The entries with one key, in order.
  abbrev pub at_key : ℕ → List A → List A
  at_key t [] = []
  at_key t (a ∷ xs) = if key a == t then a ∷ at_key t xs else at_key t xs

  All-insert_desc :
      (n : ℕ) (a : A) (xs : List A)
      → key a ≤ n
      → All (λ b. key b ≤ n) xs
      → All (λ b. key b ≤ n) (insert_desc key a xs)
  unfolding insert_desc
  All-insert_desc n a [] h all = (h, tt)
  All-insert_desc n a (b ∷ ys) h all = elim (Bool-cases (leb (key b) (key a))) [
    | inl e ↦ rw e (h, all)
    | inr e ↦ rw e (all.0, All-insert_desc n a ys h all.1)
  ]

  weaken : (m n : ℕ) (xs : List A) → m ≤ n → All (λ b. key b ≤ m) xs → All (λ b. key b ≤ n) xs
  weaken m n [] h all = tt
  weaken m n (a ∷ xs) h all = (omega (arith, all.0), weaken m n xs h all.1)

  insert_desc-NewestFirst :
      (a : A) (xs : List A) → NewestFirst xs → NewestFirst (insert_desc key a xs)
  unfolding insert_desc
  insert_desc-NewestFirst a [] h = (tt, tt)
  insert_desc-NewestFirst a (b ∷ ys) h = elim (Bool-cases (leb (key b) (key a))) [
    | inl e ↦ rw e ((ground arith, weaken (key b) (key a) ys (ground arith) h.0), h)
    | inr e ↦
        rw e (All-insert_desc (key b) a ys (ground arith) h.0, insert_desc-NewestFirst a ys h.1)
  ]

  pub sort_desc-NewestFirst : (xs : List A) → NewestFirst (sort_desc key xs)
  unfolding sort_desc
  sort_desc-NewestFirst [] = tt
  sort_desc-NewestFirst (a ∷ xs) =
      insert_desc-NewestFirst a (sort_desc key xs) (sort_desc-NewestFirst xs)

  at_key-insert_desc :
      (t : ℕ) (a : A) (xs : List A)
      → at_key t (insert_desc key a xs) ≡ (if key a == t then a ∷ at_key t xs else at_key t xs)
  unfolding insert_desc
  at_key-insert_desc t a [] = refl
  at_key-insert_desc t a (b ∷ ys) = ground (arith, at_key-insert_desc t a ys)

  pub at_key-sort_desc : (t : ℕ) (xs : List A) → at_key t (sort_desc key xs) ≡ at_key t xs
  unfolding sort_desc
  at_key-sort_desc t [] = refl
  at_key-sort_desc t (a ∷ xs) =
      rw (at_key-insert_desc t a (sort_desc key xs), at_key-sort_desc t xs) refl
