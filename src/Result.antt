-- ===== src/Result.antt =====
-- server/app/errors.py and the exceptions of the handlers: a call that may raise gives a result,
-- and a call that also changes the database gives the state that it leaves beside it.
pub mod Laws
use esp32_home_display.Text.{Str}

-- The messages of `BadRequestError`, one name for each.
pub data Reason : Type 0 where
  invalid_mac missing_timezone too_old too_far_in_future : Reason
  name_required type_mismatch not_resolved : Reason
  after_beyond_before window_half_given max_points_without_window : Reason
  start_beyond_end window_with_paging : Reason

pub data Error : Type 0 where
  bad_request : Reason → Error
  unauthorized : Error
  misconfigured : Error
  out_of_range : Str → Error
  empty_name : Error
  malformed : Error
  integrity_error : Str → Error

pub data Result {ℓ} (A : Type ℓ) : Type ℓ where
  ok : A → Result A
  err : Error → Result A

-- What is computed with the database: a result, and the database that is left.
abbrev pub Exec : Type 0 → Type 0 → Type 0
Exec D A = D → Result A × D

module _ {D A : Type 0} where
  abbrev pub pure : A → Exec D A
  pure a d = (ok a, d)

  abbrev pub raise : Error → Exec D A
  raise e d = (err e, d)

  abbrev pub lift : Result A → Exec D A
  lift r d = (r, d)

  abbrev pub gets : (D → A) → Exec D A
  gets f d = (ok (f d), d)

infixl 5 ◌>>=◌ ◌>>◌
abbrev pub ◌>>=◌ : {D A B : Type 0} → Exec D A → (A → Exec D B) → Exec D B
◌>>=◌ m f d = let (r, d') = m d in elim r [ ok a ↦ f a d' | err e ↦ (err e, d') ]

abbrev pub ◌>>◌ : {D B : Type 0} → Exec D (Unit {0}) → Exec D B → Exec D B
m >> k = m >>= λ _. k

-- The bind of calls that do not touch the database.
abbrev pub and_then {ℓ κ} : {A : Type ℓ} {B : Type κ} → Result A → (A → Result B) → Result B
and_then (ok a) f = f a
and_then (err e) f = err e
