-- ===== src/Common/Mac.antt =====
-- What MAC validation promises: a canonical form.
use esp32_home_display.Prelude.{
  ℕ, suc, zero, ◌≡◌, sym, ap, ◌==◌, true, [], ◌∷◌, arith, inl, inr, Bool-cases,
}
use esp32_home_display.Text.{Str, upper, upper_char}
use esp32_home_display.Text.Laws.{upper_idem}
use esp32_home_display.Result.{ok}
use esp32_home_display.Common.{is_hex, hex_pairs, mac_address_re, validate_mac_address}

is_hex-upper_char : (c : ℕ) → is_hex c ≡ true → is_hex (upper_char c) ≡ true
unfolding is_hex upper_char
is_hex-upper_char c h = ground arith

-- The colon is no letter.
upper_char-colon : (c : ℕ) → (c == b':') ≡ true → (upper_char c == b':') ≡ true
unfolding upper_char
upper_char-colon c h = ground arith

hex_pairs-upper : (n : ℕ) (s : Str) → hex_pairs n s ≡ true → hex_pairs n (upper s) ≡ true
unfolding upper hex_pairs
hex_pairs-upper zero (a ∷ b ∷ []) h = ground (arith, is_hex-upper_char a, is_hex-upper_char b)
hex_pairs-upper (suc n) (a ∷ b ∷ c ∷ rest) h =
    ground
      (arith, is_hex-upper_char a, is_hex-upper_char b, upper_char-colon c, hex_pairs-upper n rest)
hex_pairs-upper zero [] h = cc
hex_pairs-upper _ _ h = cc

-- A MAC address that is accepted is put into a form that is accepted again and does not change.
pub validate_mac_address_canonical :
    (mac canonical : Str)
    → validate_mac_address mac ≡ ok canonical
    → (canonical ≡ upper mac) × (validate_mac_address canonical ≡ ok canonical)
unfolding validate_mac_address
validate_mac_address_canonical mac canonical h = elim (Bool-cases (mac_address_re mac)) [
  | inl e ↦
      let again : mac_address_re (upper mac) ≡ true =
        unfold mac_address_re in hex_pairs-upper 5 mac e in
      let same : upper mac ≡ canonical = ground arith in
      (sym same, rw (← same, again) (ap ok (upper_idem mac)))
  | inr e ↦ absurd (cc (rw e at h))
]
