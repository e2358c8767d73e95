-- ===== src/RateLimit/Calls.antt =====
-- What one call of `consume` finds and leaves.
use esp32_home_display.Prelude.{
  ℕ, ◌+◌, ◌*◌, ◌⊎◌, ◌≡◌, ap, some, Bool, true, false, ℤ, pos, ◌+ℤ◌, ◌-ℤ◌, ◌*ℤ◌, ◌≤ℤ◌, pos_part,
  neg_part, min_ℤ, sub_ℕ, leb_ℤ, +ℤ_parts, *ℤ_parts, arith,
}
use esp32_home_display.Text.{Str, str_eq}
use esp32_home_display.Text.Laws.{str_eq_refl, eq_of_str_eq}
use esp32_home_display.RateLimit.{
  TokenBucketState, MapStore, Reply, allowed, denied, zero_division, Call, available, consume,
}

abbrev pub is_allowed : Reply → Bool
is_allowed allowed = true
is_allowed (denied _ _) = false
is_allowed zero_division = false

sub_ℕ_parts : (a b : ℕ) → pos_part (sub_ℕ a b) + b ≡ neg_part (sub_ℕ a b) + a
sub_ℕ_parts a b = ground arith

-- An elapsed time, which may be negative, times a rate.
scaled_parts :
    (a b r : ℕ) → pos_part (sub_ℕ a b *ℤ pos r) + b * r ≡ neg_part (sub_ℕ a b *ℤ pos r) + a * r
scaled_parts a b r = omega (arith, *ℤ_parts (sub_ℕ a b) r, ap (λ (t : ℕ). t * r) (sub_ℕ_parts a b))

module _ (b : TokenBucketState) (c : Call) where
  pub refilled : ℤ
  refilled = b.tokens +ℤ sub_ℕ c.now b.updated_at *ℤ pos c.rate

  pub refilled_parts :
      pos_part refilled + neg_part b.tokens + b.updated_at * c.rate
      ≡ neg_part refilled + pos_part b.tokens + c.now * c.rate
  unfolding refilled
  refilled_parts = omega (
    arith,
    +ℤ_parts b.tokens (sub_ℕ c.now b.updated_at *ℤ pos c.rate),
    scaled_parts c.now b.updated_at c.rate,
  )

  pub available_cases :
      (available (some b) c ≡ pos c.capacity × pos c.capacity ≤ℤ refilled)
      ⊎ (available (some b) c ≡ refilled × refilled ≤ℤ pos c.capacity)
  unfolding available min_ℤ refilled
  available_cases = ground arith

module _ {S : Type 0} (m : MapStore S) (k : Str) where
  pub consume_other :
      (s : S) (c : Call) → str_eq c.key k ≡ false → m.get (consume m s c).0 k ≡ m.get s k
  unfolding consume
  consume_other s c h = ground (
    arith,
    m.get_set s c.key k (record { tokens = available (m.get s c.key) c; updated_at = c.now }),
    m.get_set s c.key k
        (record { tokens = available (m.get s c.key) c -ℤ pos c.one; updated_at = c.now }),
  )

  pub consume_passes :
      (s : S) (c : Call)
      → str_eq c.key k ≡ true
      → leb_ℤ (pos c.one) (available (m.get s k) c) ≡ true
      → (m.get (consume m s c).0 k
          ≡ some (record { tokens = available (m.get s k) c -ℤ pos c.one; updated_at = c.now }))
        × (is_allowed (consume m s c).1 ≡ true)
  unfolding consume
  consume_passes s c e h = ground (
    arith,
    eq_of_str_eq c.key k e,
    str_eq_refl k,
    m.get_set s k k (record { tokens = available (m.get s k) c -ℤ pos c.one; updated_at = c.now }),
  )

  pub consume_stops :
      (s : S) (c : Call)
      → str_eq c.key k ≡ true
      → leb_ℤ (pos c.one) (available (m.get s k) c) ≡ false
      → (m.get (consume m s c).0 k
          ≡ some (record { tokens = available (m.get s k) c; updated_at = c.now }))
        × (is_allowed (consume m s c).1 ≡ false)
  unfolding consume
  consume_stops s c e h = ground (
    arith,
    eq_of_str_eq c.key k e,
    str_eq_refl k,
    m.get_set s k k (record { tokens = available (m.get s k) c; updated_at = c.now }),
  )
