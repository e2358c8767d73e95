-- ===== src/Vesync/Closed.antt =====
-- How a run of the client ends, and what it has done if it returns.
use esp32_home_display.Prelude.{
  ℕ, ◌≡◌, ◌⊎◌, refl, inl, inr, Bool, true, false, Option, none, some, [], ◌∷◌, arith, Bool-cases,
}
use esp32_home_display.Text.{Str}
use esp32_home_display.Vesync.{
  Exception, token_error, other_error, Call, Trace, enter, load_credentials, login,
  save_credentials, get_devices, reauthenticate, update, close, set_mode, set_humidity, Reply,
  raises, replies, Device, Library, Failure, login_failed, reauthentication_failed, not_found, Done,
  returned, raised, Prog, fail, go_on, reply_of, call,
}
use esp32_home_display.Vesync.Client.{
  close_and_fail, require, call_if_file, log_in, list_again, list_devices, find_device,
  update_device, pick_device, connect, closing, set_target, fetch_state,
}

abbrev pub has_raised : Reply → Bool
has_raised (raises e) = true
has_raised (replies ok) = false

-- The manager is closed by the last call, or the last call raised while the client was connecting.
abbrev pub IsClosed : Library → Trace → Type 0
IsClosed lib [] = ⊥
IsClosed lib (close ∷ t) = Unit {0}
IsClosed lib (set_mode mode ∷ t) = ⊥
IsClosed lib (set_humidity humidity ∷ t) = ⊥
IsClosed lib (c ∷ t) = has_raised (lib.answers t c) ≡ true

-- A step that fails leaves such a trace.
abbrev FailsClosed : {A : Type 0} → Library → Done A × Trace → Type 0
FailsClosed lib (returned a, t) = Unit {0}
FailsClosed lib (raised f, t) = IsClosed lib t

go_on-FailsClosed :
    {A B : Type 0} (lib : Library) (r : Done A × Trace) (k : A → Prog B)
    → FailsClosed lib r
    → ((a : A) (t : Trace) → FailsClosed lib (k a t))
    → FailsClosed lib (go_on k r)
unfolding go_on
go_on-FailsClosed lib (returned a, t) k h rest = rest a t
go_on-FailsClosed lib (raised f, t) k h rest = h

-- The calls that `_connect` makes.
abbrev is_connecting : Call → Bool
is_connecting (set_mode mode) = false
is_connecting (set_humidity humidity) = false
is_connecting _ = true

raised-IsClosed :
    (lib : Library) (c : Call) (t : Trace)
    → is_connecting c ≡ true
    → has_raised (lib.answers t c) ≡ true
    → IsClosed lib (c ∷ t)
raised-IsClosed lib enter t h r = r
raised-IsClosed lib load_credentials t h r = r
raised-IsClosed lib login t h r = r
raised-IsClosed lib save_credentials t h r = r
raised-IsClosed lib get_devices t h r = r
raised-IsClosed lib reauthenticate t h r = r
raised-IsClosed lib update t h r = r
raised-IsClosed lib close t h r = tt
raised-IsClosed lib (set_mode mode) t h r = absurd (ground arith)
raised-IsClosed lib (set_humidity humidity) t h r = absurd (ground arith)

pub Reply-cases :
    (r : Reply) → ((e : Exception) × (r ≡ raises e)) ⊎ ((ok : Bool) × (r ≡ replies ok))
Reply-cases (raises e) = inl (e, refl)
Reply-cases (replies ok) = inr (ok, refl)

call-FailsClosed :
    (lib : Library) (c : Call) (t : Trace) → is_connecting c ≡ true → FailsClosed lib (call lib c t)
unfolding call reply_of
call-FailsClosed lib c t h = elim (Reply-cases (lib.answers t c)) [
  | inl (e, r) ↦ rw (call, r, reply_of) (raised-IsClosed lib c t h (rw r refl))
  | inr (ok, r) ↦ rw (call, r, reply_of) tt
]

module _ (lib : Library) (cid : Str) (has_token_file : Bool) where
  close_and_fail-FailsClosed :
      (A : Type 0) (f : Failure) (t : Trace)
      → FailsClosed lib (close_and_fail lib cid has_token_file {A = A} f t)
  unfolding close_and_fail fail call reply_of go_on
  close_and_fail-FailsClosed A f t = elim (Reply-cases (lib.answers t close)) [
    | inl (e, r) ↦ rw (close_and_fail, call, r, reply_of, go_on) tt
    | inr (ok, r) ↦ rw (close_and_fail, call, r, reply_of, go_on) tt
  ]

  require-FailsClosed :
      (f : Failure) (ok : Bool) (t : Trace)
      → FailsClosed lib (require lib cid has_token_file f ok t)
  unfolding require
  require-FailsClosed f true t = tt
  require-FailsClosed f false t = close_and_fail-FailsClosed (Unit {0}) f t

  call_if_file-FailsClosed :
      (c : Call) (t : Trace)
      → is_connecting c ≡ true
      → FailsClosed lib (call_if_file lib cid has_token_file (call lib c) t)
  unfolding call_if_file
  call_if_file-FailsClosed c t h = elim (Bool-cases has_token_file) [
    | inl e ↦ rw e (call-FailsClosed lib c t h)
    | inr e ↦ rw e tt
  ]

  log_in-FailsClosed :
      (loaded : Bool) (t : Trace) → FailsClosed lib (log_in lib cid has_token_file loaded t)
  unfolding log_in
  log_in-FailsClosed true t = tt
  log_in-FailsClosed false t =
      go_on-FailsClosed lib (call lib login t) _ (call-FailsClosed lib login t refl) λ ok t1.
        go_on-FailsClosed lib (require lib cid has_token_file login_failed ok t1) _
          (require-FailsClosed login_failed ok t1)
          λ _ t2.
            go_on-FailsClosed lib
              (call_if_file lib cid has_token_file (call lib save_credentials) t2) _
              (call_if_file-FailsClosed save_credentials t2 refl) λ _ t3. tt

  list_devices-FailsClosed : (t : Trace) → FailsClosed lib (list_devices lib cid has_token_file t)
  unfolding list_devices list_again
  list_devices-FailsClosed t = elim (Reply-cases (lib.answers t get_devices)) [
    | inr (ok, r) ↦ rw (list_devices, r) tt
    | inl (other_error, r) ↦ rw (list_devices, r, r) refl
    | inl (token_error, r) ↦
        rw (list_devices, r)
          (go_on-FailsClosed lib (call lib reauthenticate (get_devices ∷ t)) _
            (call-FailsClosed lib reauthenticate (get_devices ∷ t) refl)
            λ ok t1.
              go_on-FailsClosed lib (require lib cid has_token_file reauthentication_failed ok t1) _
                (require-FailsClosed reauthentication_failed ok t1)
                λ _ t2. call-FailsClosed lib get_devices t2 refl)
  ]

  update_device-FailsClosed :
      (found : Option Device) (t : Trace)
      → FailsClosed lib (update_device lib cid has_token_file found t)
  unfolding update_device
  update_device-FailsClosed none t = close_and_fail-FailsClosed Device not_found t
  update_device-FailsClosed (some d) t =
      go_on-FailsClosed lib (call lib update t) _ (call-FailsClosed lib update t refl) λ _ t1. tt

  connect-FailsClosed : (t : Trace) → FailsClosed lib (connect lib cid has_token_file t)
  unfolding connect pick_device
  connect-FailsClosed t =
      go_on-FailsClosed lib (call lib enter t) _ (call-FailsClosed lib enter t refl) λ _ t1.
        go_on-FailsClosed lib (call_if_file lib cid has_token_file (call lib load_credentials) t1) _
          (call_if_file-FailsClosed load_credentials t1 refl)
          λ loaded t2.
            go_on-FailsClosed lib (log_in lib cid has_token_file loaded t2) _
              (log_in-FailsClosed loaded t2)
              λ _ t3.
                go_on-FailsClosed lib (list_devices lib cid has_token_file t3) _
                  (list_devices-FailsClosed t3)
                  λ _ t4. update_device-FailsClosed (find_device cid (lib.humidifiers t4)) t4

  -- What follows the connection closes the manager, whatever its end.
  go_on-IsClosed :
      {A B : Type 0} (r : Done A × Trace) (k : A → Prog B)
      → FailsClosed lib r
      → ((a : A) (t : Trace) → IsClosed lib (k a t).1)
      → IsClosed lib (go_on k r).1
  unfolding go_on
  go_on-IsClosed (returned a, t) k h closes = closes a t
  go_on-IsClosed (raised f, t) k h closes = h

  pub set_target-IsClosed :
      (humidity : ℕ) (t : Trace) → IsClosed lib (set_target lib cid has_token_file humidity t).1
  unfolding set_target closing
  set_target-IsClosed humidity t =
      go_on-IsClosed (connect lib cid has_token_file t) _ (connect-FailsClosed t) λ d t1. tt

  pub fetch_state-IsClosed : (t : Trace) → IsClosed lib (fetch_state lib cid has_token_file t).1
  unfolding fetch_state closing
  fetch_state-IsClosed t =
      go_on-IsClosed (connect lib cid has_token_file t) _ (connect-FailsClosed t) λ d t1. tt
