-- ===== src/RateLimit/Retry.antt =====
-- What a client may rely on: a fresh bucket lets through exactly its capacity at once.
use esp32_home_display.Prelude.{
  ℕ, zero, suc, ◌*◌, ◌≤◌, ◌<◌, ◌≡◌, ap, none, some, List, true, false, pos, ◌-ℤ◌, leb_ℤ, -ℤ_parts,
  replicate, eq_of_parts, ◌∙◌, arith, inl, inr,
}
use Prim.Native.Nat.{min}
use esp32_home_display.Text.Laws.{str_eq_refl}
use esp32_home_display.RateLimit.{TokenBucketState, MapStore, Call, available, consume, run}
use esp32_home_display.RateLimit.Window.{admitted}
use esp32_home_display.RateLimit.Calls.{
  refilled, refilled_parts, available_cases, consume_passes, consume_stops,
}

-- The calls of `n` requests at one instant.
abbrev pub at_once : ℕ → Call → List Call
at_once n c = replicate n c

-- No time has passed, so nothing is refilled.
available_now :
    (x : ℕ) (c : Call)
    → x ≤ c.capacity
    → available (some (record { tokens = pos x; updated_at = c.now })) c ≡ pos x
available_now x c room =
    let b : TokenBucketState = record { tokens = pos x; updated_at = c.now } in
    elim (available_cases b c) [
      | inl (e, le) ↦ e ∙ eq_of_parts (pos c.capacity) (pos x) (omega (arith, refilled_parts b c))
      | inr (e, le) ↦ e ∙ eq_of_parts (refilled b c) (pos x) (omega (arith, refilled_parts b c))
    ]

module _ {S : Type 0} (m : MapStore S) (c : Call) (whole : 0 < c.one) where
  admitted-at_once :
      (n j : ℕ) (s : S)
      → available (m.get s c.key) c ≡ pos (j * c.one)
      → j * c.one ≤ c.capacity
      → admitted c.key (at_once n c) (run m s (at_once n c)).1 ≡ min n j
  unfolding run
  admitted-at_once zero j s h room = omega arith
  admitted-at_once (suc n) zero s h room =
      let short : leb_ℤ (pos c.one) (available (m.get s c.key) c) ≡ false = rw h (ground arith) in
      let (stored, stops) = consume_stops m c.key s c (str_eq_refl c.key) short in
      let rest =
        admitted-at_once n zero (consume m s c).0
          (rw stored (rw h (available_now (0 * c.one) c room))) room in
      rw (str_eq_refl, stops) (omega (arith, rest))
  admitted-at_once (suc n) (suc j) s h room =
      let enough : leb_ℤ (pos c.one) (available (m.get s c.key) c) ≡ true = rw h (ground arith) in
      let (stored, passes) = consume_passes m c.key s c (str_eq_refl c.key) enough in
      let left : pos (suc j * c.one) -ℤ pos c.one ≡ pos (j * c.one) =
        eq_of_parts _ _ (omega (arith, -ℤ_parts (pos (suc j * c.one)) (pos c.one))) in
      let rest =
        admitted-at_once n j (consume m s c).0
          (rw stored (rw (h, left) (available_now (j * c.one) c (omega arith)))) (omega arith) in
      rw (str_eq_refl, passes) (omega (arith, rest))

-- A key that is not in the store yet lets through, of `n` calls at one instant, exactly as many as
-- its capacity has whole tokens: none is refused while a token is left.
pub admitted-fresh :
    {S : Type 0} (m : MapStore S) (s : S) (c : Call) (n j : ℕ)
    → m.get s c.key ≡ none
    → 0 < c.one
    → c.capacity ≡ j * c.one
    → admitted c.key (at_once n c) (run m s (at_once n c)).1 ≡ min n j
admitted-fresh m s c n j fresh whole e =
    admitted-at_once m c whole n j s (rw fresh (unfold available in ap pos e)) (omega arith)
