-- ===== src/RateLimit/Window.antt =====
-- How much a bucket lets through in a window of time.
use esp32_home_display.Prelude.{
  ℕ, suc, ◌+◌, ◌-◌, ◌*◌, ◌≤◌, ◌⊎◌, ◌≡◌, ap, Option, none, some, List, [], ◌∷◌, true, ℤ, pos, ◌-ℤ◌,
  ◌≤ℤ◌, pos_part, neg_part, leb_ℤ, -ℤ_parts, arith, inl, inr, Bool-cases, leb→le, ◌&&◌,
  if◌then◌else◌,
}
use esp32_home_display.Text.{Str, str_eq}
use esp32_home_display.RateLimit.{TokenBucketState, MapStore, Reply, Call, available, consume, run}
use esp32_home_display.RateLimit.Calls.{
  is_allowed, refilled_parts, available_cases, consume_other, consume_passes, consume_stops,
}

-- Every call on the key is made with these parameters, at a clock reading within the window. The
-- calls on other keys are free.
abbrev pub Within : Str → ℕ → ℕ → ℕ → ℕ → ℕ → Call → Type 0
Within k one capacity rate from to c =
    str_eq c.key k ≡ true
    → (c.one ≡ one) × (c.capacity ≡ capacity) × (c.rate ≡ rate) × (from ≤ c.now) × (c.now ≤ to)

abbrev pub AllWithin : Str → ℕ → ℕ → ℕ → ℕ → ℕ → List Call → Type 0
AllWithin k one capacity rate from to [] = Unit {0}
AllWithin k one capacity rate from to (c ∷ cs) =
    Within k one capacity rate from to c × AllWithin k one capacity rate from to cs

-- The number of calls on the key that were allowed.
abbrev pub admitted : Str → List Call → List Reply → ℕ
admitted k [] rs = 0
admitted k (c ∷ cs) [] = 0
admitted k (c ∷ cs) (r ∷ rs) =
    let rest = admitted k cs rs in if str_eq c.key k && is_allowed r then suc rest else rest

-- What the bucket will hold at `to` is not negative.
abbrev NonNeg : ℕ → ℕ → TokenBucketState → Type 0
NonNeg rate to b = neg_part b.tokens + b.updated_at * rate ≤ pos_part b.tokens + to * rate

-- What the bucket can still let through before `to`, by its tokens and the refill until then, is
-- not negative and within `budget`.
record Holds (rate to budget : ℕ) (b : TokenBucketState) : Type 0 where
  nonneg : NonNeg rate to b
  bounded : pos_part b.tokens + to * rate ≤ budget + neg_part b.tokens + b.updated_at * rate

-- The budget covers the whole window: a full bucket at `from`, and the refill after it.
abbrev Full : ℕ → ℕ → ℕ → ℕ → ℕ → Type 0
Full capacity rate from to budget = capacity + to * rate ≤ budget + from * rate

-- Before its first call in the window a bucket may have stood idle for any time.
abbrev Budget : ℕ → ℕ → ℕ → ℕ → ℕ → Option TokenBucketState → Type 0
Budget capacity rate from to budget none = Full capacity rate from to budget
Budget capacity rate from to budget (some b) =
    Holds rate to budget b ⊎ (NonNeg rate to b × Full capacity rate from to budget)

-- The tokens that a call finds, and what it leaves when it takes one.
module _ (from to budget : ℕ) (c : Call) (early : from * c.rate ≤ c.now * c.rate)
    (late : c.now * c.rate ≤ to * c.rate) where
  abbrev Found : ℤ → Type 0
  Found t =
      (neg_part t + c.now * c.rate ≤ pos_part t + to * c.rate)
      × (pos_part t + to * c.rate ≤ budget + neg_part t + c.now * c.rate)

  available-Found :
      (o : Option TokenBucketState)
      → Budget c.capacity c.rate from to budget o
      → Found (available o c)
  available-Found none h = unfold available in omega arith
  available-Found (some b) (inl h) = elim (available_cases b c) [
    | inl (e, le) ↦ rw e (omega arith, omega (arith, refilled_parts b c))
    | inr (e, le) ↦ rw e (omega (arith, refilled_parts b c), omega (arith, refilled_parts b c))
  ]
  available-Found (some b) (inr (h, full)) = elim (available_cases b c) [
    | inl (e, le) ↦ rw e (omega arith, omega arith)
    | inr (e, le) ↦ rw e (omega (arith, refilled_parts b c), omega (arith, le))
  ]

  taken-Holds :
      (t : ℤ) (rest : ℕ)
      → Found t
      → pos c.one ≤ℤ t
      → budget ≡ rest + c.one
      → Holds c.rate to rest (record { tokens = t -ℤ pos c.one; updated_at = c.now })
  taken-Holds t rest h enough e = record {
    nonneg = omega (arith, -ℤ_parts t (pos c.one));
    bounded = omega (arith, -ℤ_parts t (pos c.one));
  }

  one-le-budget : (t : ℤ) → Found t → pos c.one ≤ℤ t → c.one ≤ budget
  one-le-budget t h enough = omega arith

module _ {S : Type 0} (m : MapStore S) (k : Str) where
  module _ (one capacity rate from to : ℕ) where
    abbrev Bounded : List Call → Type 0
    Bounded cs =
        (s : S) (budget : ℕ)
        → Budget capacity rate from to budget (m.get s k)
        → admitted k cs (run m s cs).1 * one ≤ budget

    -- A call on the key: what it takes comes out of the budget.
    Bounded-same :
        (c : Call) (cs : List Call) (s : S) (budget : ℕ)
        → str_eq c.key k ≡ true
        → c.one ≡ one
        → c.capacity ≡ capacity
        → c.rate ≡ rate
        → from * c.rate ≤ c.now * c.rate
        → c.now * c.rate ≤ to * c.rate
        → Budget capacity rate from to budget (m.get s k)
        → Bounded cs
        → admitted k (c ∷ cs) (run m s (c ∷ cs)).1 * one ≤ budget
    unfolding run
    Bounded-same c cs s budget e o cap r early late h ih =
        let t = available (m.get s k) c in
        let f : Found from to budget c early late t =
          available-Found from to budget c early late (m.get s k) (rw (cap, r) h) in
        elim (Bool-cases (leb_ℤ (pos c.one) t)) [
          | inl enough ↦
              let (stored, passes) = consume_passes m k s c e enough in
              let le : pos c.one ≤ℤ t = leb→le _ _ enough in
              let fits = one-le-budget from to budget c early late t f le in
              let left =
                taken-Holds from to budget c early late t (budget - c.one) f le (omega arith) in
              let rest = ih (consume m s c).0 (budget - c.one) (rw (stored, ← r) (inl left)) in
              rw (e, passes) (grind arith)
          | inr short ↦
              let (stored, stops) = consume_stops m k s c e short in
              let left : Holds c.rate to budget (record { tokens = t; updated_at = c.now }) =
                record { nonneg = f.0; bounded = f.1 } in
              rw (e, stops) (ih (consume m s c).0 budget (rw (stored, ← r) (inl left)))
        ]

    admitted-le-budget : (cs : List Call) → AllWithin k one capacity rate from to cs → Bounded cs
    unfolding run
    admitted-le-budget [] w s budget h = omega arith
    admitted-le-budget (c ∷ cs) w s budget h =
        let ih = admitted-le-budget cs w.1 in
        elim (Bool-cases (str_eq c.key k)) [
          | inl same ↦
              let (o, cap, r, early, late) = w.0 same in
              Bounded-same c cs s budget same o cap r (grind arith) (grind arith) h ih
          | inr other ↦ rw other (ih (consume m s c).0 budget (rw (consume_other m k s c other) h))
        ]

    abbrev Kept : Option TokenBucketState → Type 0
    Kept none = Unit {0}
    Kept (some b) = NonNeg rate to b

    Kept-same :
        (c : Call) (s : S)
        → str_eq c.key k ≡ true
        → c.rate ≡ rate
        → c.now * rate ≤ to * rate
        → Kept (m.get s k)
        → Kept (m.get (consume m s c).0 k)
    Kept-same c s e r late h =
        let t = available (m.get s k) c in
        let nonneg : neg_part t + c.now * rate ≤ pos_part t + to * rate =
          available_kept c r late (m.get s k) h in
        elim (Bool-cases (leb_ℤ (pos c.one) t)) [
          | inl enough ↦
              let le : pos c.one ≤ℤ t = leb→le _ _ enough in
              rw ((consume_passes m k s c e enough).0) (omega (arith, -ℤ_parts t (pos c.one)))
          | inr short ↦ rw ((consume_stops m k s c e short).0) nonneg
        ]
      where
        available_kept :
            (c : Call)
            → c.rate ≡ rate
            → c.now * rate ≤ to * rate
            → (o : Option TokenBucketState) → Kept o
            → neg_part (available o c) + c.now * rate ≤ pos_part (available o c) + to * rate
        available_kept c r late none h = unfold available in omega arith
        available_kept c r late (some b) h = elim (available_cases b c) [
          | inl (e, le) ↦ rw e (omega arith)
          | inr (e, le) ↦ rw e (
              omega (
                arith,
                refilled_parts b c,
                ap (λ (x : ℕ). c.now * x) r,
                ap (λ (x : ℕ). b.updated_at * x) r,
              ))
        ]

    -- Earlier calls leave a bucket that may be idle from then on.
    run-Kept :
        (cs : List Call) (s : S)
        → AllWithin k one capacity rate 0 to cs
        → Kept (m.get s k)
        → Kept (m.get (run m s cs).0 k)
    unfolding run
    run-Kept [] s w h = h
    run-Kept (c ∷ cs) s w h = elim (Bool-cases (str_eq c.key k)) [
      | inl same ↦
          let (o, cap, r, early, late) = w.0 same in
          run-Kept cs (consume m s c).0 w.1 (Kept-same c s same r (grind arith) h)
      | inr other ↦ run-Kept cs (consume m s c).0 w.1 (rw (consume_other m k s c other) h)
    ]

    Kept-Budget :
        (o : Option TokenBucketState) (budget : ℕ)
        → Kept o
        → Full capacity rate from to budget
        → Budget capacity rate from to budget o
    Kept-Budget none budget h full = full
    Kept-Budget (some b) budget h full = inr (h, full)

-- For a key that is not in the store at first, and whose calls all come with the same parameters:
-- after any earlier calls, on any keys, those on the key at any clock readings up to `to`, it lets
-- through, of the calls that follow, at most its capacity and the refill of the window
-- [from, to] in which the clock readings of its calls lie. The readings need not be in order, as
-- when threads read the clock before they get the lock, and the key may have been idle for long.
pub admitted-le-window :
    {S : Type 0} (m : MapStore S) (s : S) (k : Str) (one capacity rate from to : ℕ)
    (earlier cs : List Call)
    → m.get s k ≡ none
    → from ≤ to
    → AllWithin k one capacity rate 0 to earlier
    → AllWithin k one capacity rate from to cs
    → admitted k cs (run m (run m s earlier).0 cs).1 * one ≤ capacity + (to - from) * rate
admitted-le-window m s k one capacity rate from to earlier cs fresh window w v =
    let s' = (run m s earlier).0 in
    let budget = capacity + (to - from) * rate in
    admitted-le-budget m k one capacity rate from to cs v s' budget (
      Kept-Budget m k one capacity rate from to (m.get s' k) budget
        (run-Kept m k one capacity rate from to earlier s w (rw fresh tt)) (grind arith))
