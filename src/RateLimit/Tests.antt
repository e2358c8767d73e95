-- ===== src/RateLimit/Tests.antt =====
-- Runs of the limiter over the in-memory store.
use esp32_home_display.Prelude.{
  ℕ, ◌+◌, ◌-◌, ◌*◌, ◌≤◌, ◌≡◌, refl, none, [], ◌∷◌, true, false, ◌+ℤ◌, ◌-ℤ◌, ◌*ℤ◌, min_ℤ, arith,
}
use Prim.Native.Nat.{min}
use esp32_home_display.Text.{codes, str_eq}
use esp32_home_display.Dict.{Dict, lookup, insert}
use esp32_home_display.RateLimit.{
  TokenBucketState, memory_map_store, Call, consume, available, RateLimiter, allowed, denied,
  too_many_requests, run, dependency,
}
use esp32_home_display.RateLimit.Window.{Within, admitted, admitted-le-window}
use esp32_home_display.RateLimit.Retry.{at_once, admitted-fresh}

abbrev login : RateLimiter
login = record { base_key = codes "login"; limit = 3; period = 60; burst = true; per_ip = true }

abbrev no_burst : RateLimiter
no_burst = record login { burst = false }

abbrev call_at : ℕ → Call
call_at now = record { key = codes "frontend"; now = now; one = 60; capacity = 120; rate = 2 }

abbrev empty_store : Dict TokenBucketState
empty_store = []

-- Two tokens at once, a refusal, and a clock reading that goes back.
run_calls :
    (run memory_map_store empty_store
      (call_at 5 ∷ call_at 5 ∷ call_at 20 ∷ call_at 10 ∷ call_at 40 ∷ [])).1
    ≡ allowed ∷ allowed ∷ denied 30 2 ∷ denied 50 2 ∷ allowed ∷ []
unfolding run consume available lookup insert str_eq min_ℤ ◌+ℤ◌ ◌-ℤ◌ ◌*ℤ◌
run_calls = refl

no_burst_wait :
    (dependency memory_map_store 1 no_burst
      (dependency memory_map_store 1 no_burst empty_store none 0).0
      none
      5).1
    ≡ too_many_requests 15
unfolding dependency consume available lookup insert str_eq min_ℤ ◌+ℤ◌ ◌-ℤ◌ ◌*ℤ◌
no_burst_wait = refl

near :
    (from to now : ℕ)
    → from ≤ now
    → now ≤ to
    → Within (codes "frontend") 60 120 2 from to (call_at now)
near from to now h k _ = (refl, refl, refl, h, k)

-- Two calls long before the window, which leave the bucket empty and then idle.
admitted-le-window_example :
    admitted
        (codes "frontend")
        (call_at 905 ∷ call_at 920 ∷ call_at 910 ∷ [])
        (run memory_map_store
          (run memory_map_store empty_store (call_at 5 ∷ call_at 6 ∷ [])).0
          (call_at 905 ∷ call_at 920 ∷ call_at 910 ∷ [])).1
      * 60
    ≤ 120 + (920 - 905) * 2
unfolding lookup
admitted-le-window_example =
    admitted-le-window memory_map_store empty_store (codes "frontend") 60 120 2 905 920
      (call_at 5 ∷ call_at 6 ∷ []) (call_at 905 ∷ call_at 920 ∷ call_at 910 ∷ []) refl (omega arith)
      (near 0 920 5 (omega arith) (omega arith), (near 0 920 6 (omega arith) (omega arith), tt))
      (
        near 905 920 905 (omega arith) (omega arith),
        (
          near 905 920 920 (omega arith) (omega arith),
          (near 905 920 910 (omega arith) (omega arith), tt),
        ),
      )

admitted-fresh_example :
    admitted
      (codes "frontend")
      (at_once 4 (call_at 9))
      (run memory_map_store empty_store (at_once 4 (call_at 9))).1
    ≡ min 4 2
unfolding lookup
admitted-fresh_example =
    admitted-fresh memory_map_store empty_store (call_at 9) 4 2 refl (omega arith) refl
