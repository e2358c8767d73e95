-- ===== src/Access/Buckets.antt =====
-- The limiters share one store, and each caller has buckets of its own in it.
use esp32_home_display.Prelude.{
  ℕ, ◌≡◌, refl, sym, ℤ, ◌∙◌, Bool, true, false, ◌&&◌, not, Option, List, [], ◌∷◌, pos, leb_ℤ, ap,
  arith, inl, inr, Bool-cases, if◌then◌else◌,
}
use esp32_home_display.Text.{Str, str_eq}
use esp32_home_display.RateLimit.{
  MapStore, Reply, allowed, Call, available, consume, wait_for, key_of, host_of, call_of, outcome,
  dependency,
}
use esp32_home_display.Access.{
  AccessConfig, Request, LimiterName, api_key_read, api_key_live_write, api_key_bulk_write,
  frontend, login, limiter_of, verdict_of, check_limit,
}

-- Two requests that count for the same bucket: of one limiter, and from one address if the limiter
-- goes by addresses.
abbrev pub same_bucket : LimiterName → Option Str → LimiterName → Option Str → Bool
same_bucket api_key_read c api_key_read d = true
same_bucket api_key_live_write c api_key_live_write d = true
same_bucket api_key_bulk_write c api_key_bulk_write d = true
same_bucket frontend c frontend d = str_eq (host_of c) (host_of d)
same_bucket login c login d = str_eq (host_of c) (host_of d)
same_bucket _ _ _ _ = false

module _ (cfg : AccessConfig) where
  -- The keys of the store tell the buckets apart.
  str_eq-key_of :
      (n : LimiterName) (c : Option Str) (k : LimiterName) (d : Option Str)
      → str_eq (key_of (limiter_of cfg n) c) (key_of (limiter_of cfg k) d) ≡ same_bucket n c k d
  unfolding str_eq key_of limiter_of
  str_eq-key_of api_key_read c api_key_read d = refl
  str_eq-key_of api_key_read c api_key_live_write d = refl
  str_eq-key_of api_key_read c api_key_bulk_write d = refl
  str_eq-key_of api_key_read c frontend d = refl
  str_eq-key_of api_key_read c login d = refl
  str_eq-key_of api_key_live_write c api_key_read d = refl
  str_eq-key_of api_key_live_write c api_key_live_write d = refl
  str_eq-key_of api_key_live_write c api_key_bulk_write d = refl
  str_eq-key_of api_key_live_write c frontend d = refl
  str_eq-key_of api_key_live_write c login d = refl
  str_eq-key_of api_key_bulk_write c api_key_read d = refl
  str_eq-key_of api_key_bulk_write c api_key_live_write d = refl
  str_eq-key_of api_key_bulk_write c api_key_bulk_write d = refl
  str_eq-key_of api_key_bulk_write c frontend d = refl
  str_eq-key_of api_key_bulk_write c login d = refl
  str_eq-key_of frontend c api_key_read d = refl
  str_eq-key_of frontend c api_key_live_write d = refl
  str_eq-key_of frontend c api_key_bulk_write d = refl
  str_eq-key_of frontend c frontend d = refl
  str_eq-key_of frontend c login d = refl
  str_eq-key_of login c api_key_read d = refl
  str_eq-key_of login c api_key_live_write d = refl
  str_eq-key_of login c api_key_bulk_write d = refl
  str_eq-key_of login c frontend d = refl
  str_eq-key_of login c login d = refl

-- One request after another, each at its limiter.
abbrev pub Attempt : Type 0
Attempt = LimiterName × Request

-- None of the requests counts for the bucket.
abbrev pub all_others : LimiterName → Option Str → List Attempt → Bool
all_others n c [] = true
all_others n c ((k, r) ∷ rest) = not (same_bucket k r.client n c) && all_others n c rest

-- What the limiter answers, by the tokens that are there.
abbrev reply_for : Call → ℤ → Reply
reply_for c tokens = if leb_ℤ (pos c.one) tokens then allowed else wait_for c tokens

module _ {S : Type 0} (m : MapStore S) (hz : ℕ) (cfg : AccessConfig) where
  unfoldable pub attempts : List Attempt → S → S
  attempts [] s = s
  attempts ((k, r) ∷ rest) s = attempts rest (check_limit m hz cfg k r s).0

  consume_other :
      (c : Call) (s : S) (key : Str)
      → str_eq c.key key ≡ false
      → m.get (consume m s c).0 key ≡ m.get s key
  unfolding consume
  consume_other c s key h = elim (Bool-cases (leb_ℤ (pos c.one) (available (m.get s c.key) c))) [
    | inl e ↦ rw (consume, e, m.get_set, h) refl
    | inr e ↦ rw (consume, e, m.get_set, h) refl
  ]

  attempts_other :
      (n : LimiterName) (c : Option Str) (before : List Attempt) (s : S)
      → all_others n c before ≡ true
      → m.get (attempts before s) (key_of (limiter_of cfg n) c)
        ≡ m.get s (key_of (limiter_of cfg n) c)
  unfolding attempts
  attempts_other n c [] s h = refl
  attempts_other n c ((k, r) ∷ rest) s h =
      attempts_other n c rest (check_limit m hz cfg k r s).0 (ground arith)
      ∙ unfold check_limit dependency in
        consume_other (call_of hz (limiter_of cfg k) r.client r.now) s (key_of (limiter_of cfg n) c)
          (str_eq-key_of cfg k r.client n c ∙ ground arith)

  reply_of_bucket :
      (c : Call) (s : S) → (consume m s c).1 ≡ reply_for c (available (m.get s c.key) c)
  unfolding consume
  reply_of_bucket c s = elim (Bool-cases (leb_ℤ (pos c.one) (available (m.get s c.key) c))) [
    | inl e ↦ rw (consume, e) refl
    | inr e ↦ rw (consume, e) refl
  ]

  -- What others do does not count against a caller: after any requests at other limiters, or at the
  -- same one from other addresses if it goes by addresses, the limiter answers a request as it would
  -- have answered it before them.
  pub check_limit-attempts :
      (n : LimiterName) (request : Request) (before : List Attempt) (s : S)
      → all_others n request.client before ≡ true
      → (check_limit m hz cfg n request (attempts before s)).1
        ≡ (check_limit m hz cfg n request s).1
  unfolding check_limit dependency call_of
  check_limit-attempts n request before s h =
      let c = call_of hz (limiter_of cfg n) request.client request.now in
      let s' = attempts before s in
      ap (λ r. verdict_of (outcome hz r))
        (reply_of_bucket c s'
          ∙ ap (λ b. reply_for c (available b c)) (attempts_other n request.client before s h)
          ∙ sym (reply_of_bucket c s))
