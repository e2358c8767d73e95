-- ===== src/Vesync/Excused.antt =====
-- Why a run of the client raises.
use esp32_home_display.Prelude.{
  ℕ, ◌≡◌, refl, inl, inr, Bool, true, false, not, ◌||◌, none, some, List, [], ◌∷◌, arith,
  Bool-cases, Option-cases,
}
use esp32_home_display.Text.{Str, str_eq}
use esp32_home_display.Vesync.{
  token_error, other_error, Call, Trace, enter, load_credentials, login, save_credentials,
  get_devices, reauthenticate, update, close, set_mode, set_humidity, Reply, raises, replies,
  Device, Library, Failure, library_error, login_failed, reauthentication_failed, not_found,
  no_mode, set_mode_failed, set_humidity_failed, Done, returned, raised, Prog, fail, go_on,
  reply_of, call,
}
use esp32_home_display.Vesync.Client.{
  close_and_fail, require, call_if_file, log_in, list_again, list_devices, find_device,
  update_device, pick_device, connect, after_close, closing, is_in_mode, expect, ensure_mode,
  command,
}
use esp32_home_display.Vesync.Closed.{Reply-cases}

-- An exception, or a refusal.
abbrev pub is_trouble : Reply → Bool
is_trouble (raises e) = true
is_trouble (replies ok) = not ok

-- Some call of the trace raised or was refused.
abbrev pub has_trouble : Library → Trace → Bool
has_trouble lib [] = false
has_trouble lib (c ∷ t) = is_trouble (lib.answers t c) || has_trouble lib t

module _ (lib : Library) (cid : Str) where
  -- The library did not list the device, the device has no mode, or some call raised or was refused.
  abbrev pub IsExcused : Failure → Trace → Type 0
  IsExcused not_found out = (t : Trace) × (find_device cid (lib.humidifiers t) ≡ none)
  IsExcused no_mode out =
      (t : Trace) × (d : Device) × (find_device cid (lib.humidifiers t) ≡ some d)
      × (d.mist_modes ≡ [])
  IsExcused (library_error e) out = has_trouble lib out ≡ true
  IsExcused login_failed out = has_trouble lib out ≡ true
  IsExcused reauthentication_failed out = has_trouble lib out ≡ true
  IsExcused set_mode_failed out = has_trouble lib out ≡ true
  IsExcused set_humidity_failed out = has_trouble lib out ≡ true

  abbrev pub FailsExcused : {A : Type 0} → Done A × Trace → Type 0
  FailsExcused (returned a, t) = Unit {0}
  FailsExcused (raised f, t) = IsExcused f t

  later : (f : Failure) (c : Call) (t : Trace) → IsExcused f t → IsExcused f (c ∷ t)
  later not_found c t h = h
  later no_mode c t h = h
  later (library_error e) c t h = ground (arith, h)
  later login_failed c t h = ground (arith, h)
  later reauthentication_failed c t h = ground (arith, h)
  later set_mode_failed c t h = ground (arith, h)
  later set_humidity_failed c t h = ground (arith, h)

  pub go_on-FailsExcused :
      {A B : Type 0} (r : Done A × Trace) (k : A → Prog B)
      → FailsExcused r
      → ((a : A) (t : Trace) → r ≡ (returned a, t) → FailsExcused (k a t))
      → FailsExcused (go_on k r)
  unfolding go_on
  go_on-FailsExcused (returned a, t) k h rest = rest a t refl
  go_on-FailsExcused (raised f, t) k h rest = h

  -- A call: what follows it may use what it was answered.
  after_call :
      {B : Type 0} (c : Call) (t : Trace) (k : Bool → Prog B)
      → ((ok : Bool) → lib.answers t c ≡ replies ok → FailsExcused (k ok (c ∷ t)))
      → FailsExcused (go_on k (call lib c t))
  unfolding go_on call reply_of
  after_call c t k rest = elim (Reply-cases (lib.answers t c)) [
    | inl (e, r) ↦ rw (call, r, reply_of, go_on, r) refl
    | inr (ok, r) ↦ rw (call, r, reply_of, go_on) (rest ok r)
  ]

  call-FailsExcused : (c : Call) (t : Trace) → FailsExcused (call lib c t)
  unfolding call reply_of
  call-FailsExcused c t = elim (Reply-cases (lib.answers t c)) [
    | inl (e, r) ↦ rw (call, r, reply_of, r) refl
    | inr (ok, r) ↦ rw (call, r, reply_of) tt
  ]

module _ (lib : Library) (cid : Str) (has_token_file : Bool) where
  close_and_fail-FailsExcused :
      (A : Type 0) (f : Failure) (t : Trace)
      → IsExcused lib cid f t
      → FailsExcused lib cid (close_and_fail lib cid has_token_file {A = A} f t)
  unfolding close_and_fail fail
  close_and_fail-FailsExcused A f t h =
      after_call lib cid close t (λ _. fail {A = A} f) (λ ok r. later lib cid f close t h)

  require-FailsExcused :
      (f : Failure) (ok : Bool) (t : Trace)
      → (ok ≡ false → IsExcused lib cid f t)
      → FailsExcused lib cid (require lib cid has_token_file f ok t)
  unfolding require
  require-FailsExcused f true t h = tt
  require-FailsExcused f false t h = close_and_fail-FailsExcused (Unit {0}) f t (h refl)

  refused_call :
      (c : Call) (t : Trace) (ok : Bool)
      → lib.answers t c ≡ replies ok
      → ok ≡ false
      → has_trouble lib (c ∷ t) ≡ true
  refused_call c t ok r e = rw (r, e) refl

  call_if_file-FailsExcused :
      (c : Call) (t : Trace)
      → FailsExcused lib cid (call_if_file lib cid has_token_file (call lib c) t)
  unfolding call_if_file
  call_if_file-FailsExcused c t = elim (Bool-cases has_token_file) [
    | inl e ↦ rw e (call-FailsExcused lib cid c t)
    | inr e ↦ rw e tt
  ]

  log_in-FailsExcused :
      (loaded : Bool) (t : Trace) → FailsExcused lib cid (log_in lib cid has_token_file loaded t)
  unfolding log_in
  log_in-FailsExcused true t = tt
  log_in-FailsExcused false t = after_call lib cid login t _ λ ok r.
      go_on-FailsExcused lib cid (require lib cid has_token_file login_failed ok (login ∷ t)) _
        (require-FailsExcused login_failed ok (login ∷ t) (refused_call login t ok r))
        λ _ t1 _.
          go_on-FailsExcused lib cid
            (call_if_file lib cid has_token_file (call lib save_credentials) t1) _
            (call_if_file-FailsExcused save_credentials t1) λ _ t2 _. tt

  list_devices-FailsExcused :
      (t : Trace) → FailsExcused lib cid (list_devices lib cid has_token_file t)
  unfolding list_devices list_again
  list_devices-FailsExcused t = elim (Reply-cases (lib.answers t get_devices)) [
    | inr (ok, r) ↦ rw (list_devices, r) tt
    | inl (other_error, r) ↦ rw (list_devices, r, r) refl
    | inl (token_error, r) ↦
        rw (list_devices, r)
          (after_call lib cid reauthenticate (get_devices ∷ t) _ λ ok s.
            go_on-FailsExcused lib cid
              (require lib cid has_token_file reauthentication_failed ok
                (reauthenticate ∷ get_devices ∷ t))
              _
              (require-FailsExcused reauthentication_failed ok (reauthenticate ∷ get_devices ∷ t)
                (refused_call reauthenticate (get_devices ∷ t) ok s))
              λ _ t1 _. call-FailsExcused lib cid get_devices t1)
  ]

  pick_device-FailsExcused :
      (t : Trace) → FailsExcused lib cid (pick_device lib cid has_token_file t)
  unfolding pick_device update_device
  pick_device-FailsExcused t = elim (Option-cases (find_device cid (lib.humidifiers t))) [
    | inl e ↦
        rw (pick_device, e, update_device) (close_and_fail-FailsExcused Device not_found t (t, e))
    | inr (d, e) ↦ rw (pick_device, e, update_device) (after_call lib cid update t _ λ ok r. tt)
  ]

  pub connect-FailsExcused : (t : Trace) → FailsExcused lib cid (connect lib cid has_token_file t)
  unfolding connect
  connect-FailsExcused t = after_call lib cid enter t _ λ _ _.
      go_on-FailsExcused lib cid
        (call_if_file lib cid has_token_file (call lib load_credentials) (enter ∷ t)) _
        (call_if_file-FailsExcused load_credentials (enter ∷ t))
        λ loaded t1 _.
          go_on-FailsExcused lib cid (log_in lib cid has_token_file loaded t1) _
            (log_in-FailsExcused loaded t1)
            λ _ t2 _.
              go_on-FailsExcused lib cid (list_devices lib cid has_token_file t2) _
                (list_devices-FailsExcused t2) λ _ t3 _. pick_device-FailsExcused t3

  expect-FailsExcused :
      (f : Failure) (ok : Bool) (t : Trace)
      → (ok ≡ false → IsExcused lib cid f t)
      → FailsExcused lib cid (expect lib cid has_token_file f ok t)
  unfolding expect fail
  expect-FailsExcused f true t h = tt
  expect-FailsExcused f false t h = h refl

  ensure_mode-FailsExcused :
      (mode : Str) (in_mode : Bool) (t : Trace)
      → FailsExcused lib cid (ensure_mode lib cid has_token_file mode in_mode t)
  unfolding ensure_mode
  ensure_mode-FailsExcused mode true t = tt
  ensure_mode-FailsExcused mode false t = after_call lib cid (set_mode mode) t _ λ ok r.
      expect-FailsExcused set_mode_failed ok (set_mode mode ∷ t)
        (refused_call (set_mode mode) t ok r)

  -- The modes are those of a device that was listed.
  pub command-FailsExcused :
      (humidity : ℕ) (d : Device) (modes : List Str) (t : Trace)
      → d.mist_modes ≡ modes
      → (s : Trace) × (find_device cid (lib.humidifiers s) ≡ some d)
      → FailsExcused lib cid (command lib cid has_token_file humidity d modes t)
  unfolding command fail is_in_mode go_on
  command-FailsExcused humidity d [] t same found = (found.0, d, found.1, same)
  command-FailsExcused humidity d (auto ∷ modes) t same found =
      go_on-FailsExcused lib cid
        (ensure_mode lib cid has_token_file auto (str_eq (lib.state_of t d).mode auto) t) _
        (ensure_mode-FailsExcused auto (str_eq (lib.state_of t d).mode auto) t)
        λ _ t1 _. after_call lib cid (set_humidity humidity) t1 _ λ ok r.
          expect-FailsExcused set_humidity_failed ok (set_humidity humidity ∷ t1)
            (refused_call (set_humidity humidity) t1 ok r)

  after_close-FailsExcused :
      {A : Type 0} (end : Done A) (t : Trace) (reply : Reply)
      → lib.answers t close ≡ reply
      → FailsExcused lib cid {A = A} (end, t)
      → FailsExcused lib cid {A = A}
          (after_close lib cid has_token_file end (reply_of reply), close ∷ t)
  unfolding after_close reply_of
  after_close-FailsExcused (returned a) t (replies ok) e h = tt
  after_close-FailsExcused (returned a) t (raises x) e h = rw e refl
  after_close-FailsExcused (raised f) t (replies ok) e h = later lib cid f close t h
  after_close-FailsExcused (raised f) t (raises x) e h = rw e refl

  pub closing-FailsExcused :
      {A : Type 0} (m : Prog A) (t : Trace)
      → FailsExcused lib cid (m t)
      → FailsExcused lib cid (closing lib cid has_token_file m t)
  unfolding closing call
  closing-FailsExcused m t h =
      after_close-FailsExcused (m t).0 (m t).1 (lib.answers (m t).1 close) refl h
