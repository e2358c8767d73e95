-- ===== src/RateLimit.antt =====
-- server/app/api_limits.py: the token-bucket limiter behind every rate-limited route.
-- Floats are replaced by exact integers: a clock reading counts clock ticks, and tokens are counted
-- in parts of a token, so that the refill of one tick is a whole number of parts. A call of
-- `consume` holds the lock from its first read of the store to its last write, but the clock is
-- read before the lock is taken: the calls are a sequence whose clock readings may go back.
mod Calls
pub mod Window
pub mod Retry
mod Tests
use esp32_home_display.Prelude.{
  ℕ, ◌+◌, ◌-◌, ◌*◌, ◌/◌, ◌≡◌, Option, none, some, List, [], ◌∷◌, ◌++◌, Bool, ℤ, pos, ◌+ℤ◌, ◌-ℤ◌,
  ◌*ℤ◌, pos_part, min_ℤ, sub_ℕ, leb_ℤ, ◌==◌, if◌then◌else◌,
}
use esp32_home_display.Text.{Str, codes, str_eq}
use esp32_home_display.Dict.{Dict, lookup, insert, remove, lookup-insert, lookup-remove}

pub record TokenBucketState : Type 0 where
  pub tokens : ℤ
  pub updated_at : ℕ

-- The protocol `MapStore`, with what a map promises.
pub record MapStore (S : Type 0) : Type 0 where
  pub get : S → Str → Option TokenBucketState
  pub set : S → Str → TokenBucketState → S
  pub delete : S → Str → S
  pub get_set :
      (s : S) (k j : Str) (v : TokenBucketState)
      → get (set s k v) j ≡ (if str_eq k j then some v else get s j)
  pub get_delete : (s : S) (k j : Str) → get (delete s k) j ≡ (if str_eq k j then none else get s j)

-- `MemoryMapStore`
abbrev pub memory_map_store : MapStore (Dict TokenBucketState)
memory_map_store = record {
  get = lookup;
  set = insert;
  delete = remove;
  get_set = lookup-insert;
  get_delete = lookup-remove;
}

-- What `consume` gives back: `None`, a number of ticks to wait as a quotient, or the division by a
-- rate of zero.
pub data Reply : Type 0 where
  allowed : Reply
  denied : ℕ → ℕ → Reply
  zero_division : Reply

-- The arguments of one call of `consume`, with the clock reading that it takes: `one` is the number
-- of parts in a token, `capacity` is in parts, and `rate` in parts per tick.
pub record Call : Type 0 where
  pub key : Str
  pub now : ℕ
  pub one : ℕ
  pub capacity : ℕ
  pub rate : ℕ

unfoldable pub available : Option TokenBucketState → Call → ℤ
available none c = pos c.capacity
available (some state) c =
    let elapsed = sub_ℕ c.now state.updated_at in
    min_ℤ (pos c.capacity) (state.tokens +ℤ elapsed *ℤ pos c.rate)

unfoldable pub wait_for : Call → ℤ → Reply
wait_for c tokens =
    if c.rate == 0 then zero_division else denied (pos_part (pos c.one -ℤ tokens)) c.rate

module _ {S : Type 0} (m : MapStore S) where
  unfoldable pub consume : S → Call → S × Reply
  unfolding wait_for
  consume s c =
      let tokens = available (m.get s c.key) c in
      if leb_ℤ (pos c.one) tokens
      then (m.set s c.key (record { tokens = tokens -ℤ pos c.one; updated_at = c.now }), allowed)
      else (m.set s c.key (record { tokens = tokens; updated_at = c.now }), wait_for c tokens)

  -- One call after another, in the order in which they get the lock.
  unfoldable pub run : S → List Call → S × List Reply
  run s [] = (s, [])
  run s (c ∷ cs) = let (s', r) = consume s c in let (s'', rs) = run s' cs in (s'', r ∷ rs)

-- The arguments of `make_rate_limiter`; `hz` is the number of clock ticks in a second.
pub record RateLimiter : Type 0 where
  pub base_key : Str
  pub limit : ℕ
  pub period : ℕ
  pub burst : Bool
  pub per_ip : Bool

unfoldable pub host_of : Option Str → Str
host_of none = codes "unknown"
host_of (some host) = host

-- `f"{base_key}:{host}" if per_ip else base_key`, for a request from `client`.
unfoldable pub key_of : RateLimiter → Option Str → Str
unfolding host_of
key_of l client = if l.per_ip then l.base_key ++ (codes ":" ++ host_of client) else l.base_key

-- The call of `consume` that a request makes: a token has `period * hz` parts, so that a rate of
-- `limit / period` tokens in a second is `limit` parts in a tick.
unfoldable pub call_of : ℕ → RateLimiter → Option Str → ℕ → Call
unfolding key_of
call_of hz l client now = record {
  key = key_of l client;
  now = now;
  one = l.period * hz;
  capacity = if l.burst then l.limit * (l.period * hz) else l.period * hz;
  rate = l.limit;
}

pub data Outcome : Type 0 where
  passed : Outcome
  too_many_requests : ℕ → Outcome
  server_error : Outcome

-- `math.ceil` of a quotient of natural numbers
unfoldable pub ceil_div : ℕ → ℕ → ℕ
ceil_div a b = (a + b - 1) / b

-- The 429 response carries the wait in whole seconds, rounded up.
unfoldable pub outcome : ℕ → Reply → Outcome
unfolding ceil_div
outcome hz allowed = passed
outcome hz (denied parts rate) = too_many_requests (ceil_div parts (rate * hz))
outcome hz zero_division = server_error

module _ {S : Type 0} (m : MapStore S) where
  -- `dependency` of `make_rate_limiter`
  unfoldable pub dependency : ℕ → RateLimiter → S → Option Str → ℕ → S × Outcome
  unfolding outcome call_of
  dependency hz l s client now =
      let (s', r) = consume m s (call_of hz l client now) in (s', outcome hz r)
