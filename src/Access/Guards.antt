-- ===== src/Access/Guards.antt =====
-- Who gets past the dependencies of a route.
use esp32_home_display.Prelude.{
  ℕ, ◌≡◌, refl, Bool, true, false, ◌&&◌, not, Option, none, some, pos, leb_ℤ, ◌==◌, inl, inr,
  Bool-cases, Option-cases,
}
use esp32_home_display.Text.{Str, str_eq, is_empty}
use esp32_home_display.RateLimit.{
  MapStore, available, consume, Call, call_of, outcome, wait_for, dependency,
}
use esp32_home_display.Access.{
  AccessConfig, Request, LimiterName, api_key_read, frontend, limiter_of, Verdict, granted,
  rejected, limited, crashed, verdict_of, check_limit, device_guard, sensor_read_limit,
  verify_api_key, require_api_key, require_session, require_session_or_api_key,
}

abbrev pub is_granted : Verdict → Bool
is_granted granted = true
is_granted (rejected e) = false
is_granted (limited secs) = false
is_granted crashed = false

abbrev pub is_rejected : Verdict → Bool
is_rejected granted = false
is_rejected (rejected e) = true
is_rejected (limited secs) = false
is_rejected crashed = false

-- The key that came is the configured one, which is not empty.
abbrev pub has_key : AccessConfig → Option Str → Bool
has_key cfg none = false
has_key cfg (some k) = not (is_empty cfg.api_key) && str_eq k cfg.api_key

abbrev keyed : Str → Request → Request
keyed k request = record request { x_api_key = some k }

abbrev unkeyed : Request → Request
unkeyed request = record request { x_api_key = none }

module _ {S : Type 0} (m : MapStore S) (hz : ℕ) (cfg : AccessConfig) where
  -- The bucket that the request counts for holds a token.
  abbrev pub has_token : LimiterName → Request → S → Bool
  has_token name request s =
      let c = call_of hz (limiter_of cfg name) request.client request.now in
      leb_ℤ (pos c.one) (available (m.get s c.key) c)

  -- A request that names a key is judged by the key alone, any other by its session.
  abbrev pub may_read : Request → S → Bool
  may_read request s = elim request.x_api_key [
    | some k ↦ has_key cfg (some k) && has_token api_key_read request s
    | none ↦ request.authenticated && has_token frontend request s
  ]

  consume-granted :
      (c : Call) (s : S)
      → (is_granted (verdict_of (outcome hz (consume m s c).1))
          ≡ leb_ℤ (pos c.one) (available (m.get s c.key) c))
        × (is_rejected (verdict_of (outcome hz (consume m s c).1)) ≡ false)
  unfolding consume wait_for
  consume-granted c s = elim (Bool-cases (leb_ℤ (pos c.one) (available (m.get s c.key) c))) [
    | inl e ↦ unfold verdict_of outcome in rw (consume, e) (refl, refl)
    | inr e ↦ elim (Bool-cases (c.rate == 0)) [
      | inl f ↦ unfold verdict_of outcome in rw (consume, e, wait_for, f) (refl, refl)
      | inr f ↦ unfold verdict_of outcome in rw (consume, e, wait_for, f) (refl, refl)
    ]
  ]

  check_limit-granted :
      (name : LimiterName) (request : Request) (s : S)
      → (is_granted (check_limit m hz cfg name request s).1 ≡ has_token name request s)
        × (is_rejected (check_limit m hz cfg name request s).1 ≡ false)
  unfolding check_limit dependency
  check_limit-granted name request s =
      consume-granted (call_of hz (limiter_of cfg name) request.client request.now) s

  reads_keyed :
      (k : Str) (request : Request) (s : S)
      → is_granted (sensor_read_limit m hz cfg (keyed k request) s).1 ≡ may_read (keyed k request) s
  unfolding sensor_read_limit require_session_or_api_key verify_api_key
  reads_keyed k request s = elim (Bool-cases (is_empty cfg.api_key)) [
    | inl e ↦ rw (sensor_read_limit, require_session_or_api_key, verify_api_key, e) refl
    | inr e ↦ elim (Bool-cases (str_eq k cfg.api_key)) [
      | inl f ↦
          rw (sensor_read_limit, require_session_or_api_key, verify_api_key, e, f)
            ((check_limit-granted api_key_read (keyed k request) s).0)
      | inr f ↦ rw (sensor_read_limit, require_session_or_api_key, verify_api_key, e, f) refl
    ]
  ]

  reads_unkeyed :
      (request : Request) (s : S)
      → is_granted (sensor_read_limit m hz cfg (unkeyed request) s).1 ≡ may_read (unkeyed request) s
  unfolding sensor_read_limit require_session_or_api_key require_session
  reads_unkeyed request s = elim (Bool-cases request.authenticated) [
    | inl e ↦
        rw (sensor_read_limit, require_session_or_api_key, require_session, e)
          ((check_limit-granted frontend (unkeyed (record request { authenticated = true })) s).0)
    | inr e ↦ rw (sensor_read_limit, require_session_or_api_key, require_session, e) refl
  ]

  writes_keyed :
      (k : Str) (name : LimiterName) (request : Request) (s : S)
      → is_granted (device_guard m hz cfg name (keyed k request) s).1
        ≡ (has_key cfg (some k) && has_token name (keyed k request) s)
  unfolding device_guard require_api_key verify_api_key
  writes_keyed k name request s = elim (Bool-cases (is_empty cfg.api_key)) [
    | inl e ↦ rw (device_guard, require_api_key, verify_api_key, e) refl
    | inr e ↦ elim (Bool-cases (str_eq k cfg.api_key)) [
      | inl f ↦
          rw (device_guard, require_api_key, verify_api_key, e, f)
            ((check_limit-granted name (keyed k request) s).0)
      | inr f ↦ rw (device_guard, require_api_key, verify_api_key, e, f) refl
    ]
  ]

  writes_unkeyed :
      (name : LimiterName) (request : Request) (s : S)
      → is_granted (device_guard m hz cfg name (unkeyed request) s).1 ≡ false
  unfolding device_guard require_api_key verify_api_key
  writes_unkeyed name request s = elim (Bool-cases (is_empty cfg.api_key)) [
    | inl e ↦ rw (device_guard, require_api_key, verify_api_key, e) refl
    | inr e ↦ rw (device_guard, require_api_key, verify_api_key, e) refl
  ]

  -- A request passes the dependencies of a sensor route exactly if the key that it names is the
  -- configured one and that key's bucket holds a token, or if it names no key, its session is
  -- authenticated and the bucket of its address holds a token. It passes those of a device route
  -- exactly if it names the configured key and the route's bucket holds a token.
  pub sensor_read_limit-granted :
      (name : LimiterName) (request : Request) (s : S)
      → (is_granted (sensor_read_limit m hz cfg request s).1 ≡ may_read request s)
        × (is_granted (device_guard m hz cfg name request s).1
            ≡ (has_key cfg request.x_api_key && has_token name request s))
  sensor_read_limit-granted name request s = elim (Option-cases request.x_api_key) [
    | inl e ↦ rw e (reads_unkeyed request s, writes_unkeyed name request s)
    | inr (k, e) ↦ rw e (reads_keyed k request s, writes_keyed k name request s)
  ]
