-- ===== src/Text/Laws.antt =====
-- Laws of text equality and of `upper`, which the other components use.
use esp32_home_display.Prelude.{
  ℕ, ◌≡◌, ◌≢◌, refl, ◌↔◌, true, false, [], ◌∷◌, arith, inl, inr, Bool-cases,
}
use esp32_home_display.Text.{Str, str_eq, upper, upper_char}

pub str_eq_refl : (s : Str) → str_eq s s ≡ true
unfolding str_eq
str_eq_refl [] = refl
str_eq_refl (c ∷ s) = ground (arith, str_eq_refl s)

pub eq_of_str_eq : (s t : Str) → str_eq s t ≡ true → s ≡ t
unfolding str_eq
eq_of_str_eq [] [] h = refl
eq_of_str_eq [] (d ∷ t) h = cc
eq_of_str_eq (c ∷ s) [] h = cc
eq_of_str_eq (c ∷ s) (d ∷ t) h = ground (arith, eq_of_str_eq s t)

-- The test decides equality: the form that `ground` and `grind` take.
pub str_eq_iff : (s t : Str) → (str_eq s t ≡ true) ↔ (s ≡ t)
str_eq_iff s t = (eq_of_str_eq s t, λ e. ground (arith, str_eq_refl s))

pub str_eq_ne : (s t : Str) → s ≢ t → str_eq s t ≡ false
str_eq_ne s t h = elim (Bool-cases (str_eq s t)) [
  | inl e ↦ absurd (h (eq_of_str_eq s t e))
  | inr e ↦ e
]

upper_char_idem : (c : ℕ) → upper_char (upper_char c) ≡ upper_char c
unfolding upper_char
upper_char_idem c = ground arith

-- Converting to upper case twice is converting once.
pub upper_idem : (s : Str) → upper (upper s) ≡ upper s
unfolding upper
upper_idem [] = refl
upper_idem (c ∷ s) = cc (upper_char_idem c, upper_idem s)
