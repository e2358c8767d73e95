-- ===== src/Vesync/Client.antt =====
-- server/app/levoit_vesync.py: `LevoitVeSyncClient`.
use esp32_home_display.Prelude.{
  ℕ, Bool, true, false, Option, none, some, List, [], ◌∷◌, if◌then◌else◌,
}
use esp32_home_display.Text.{Str, str_eq}
use esp32_home_display.Vesync.{
  token_error, other_error, enter, load_credentials, login, save_credentials, get_devices,
  reauthenticate, update, close, set_mode, set_humidity, raises, replies, Device, Library, Failure,
  library_error, login_failed, reauthentication_failed, not_found, no_mode, set_mode_failed,
  set_humidity_failed, Done, returned, raised, Prog, pure, fail, ◌>>=◌, call,
}

-- `HumidifierState`
pub record HumidifierState : Type 0 where
  pub cid : Str
  pub name : Str
  pub device_type : Str
  pub current_target_humidity : Option ℕ
  pub is_in_auto_mode : Bool

unfoldable pub find_device : Str → List Device → Option Device
find_device cid [] = none
find_device cid (d ∷ ds) =
    let rest = find_device cid ds in if str_eq d.cid cid then some d else rest

module _ (lib : Library) (cid : Str) (has_token_file : Bool) where
  -- `await manager.__aexit__(None, None, None)`, then the error
  unfoldable pub close_and_fail : {A : Type 0} → Failure → Prog A
  unfolding call fail
  close_and_fail f = do _ ← call lib close; fail f

  unfoldable pub require : Failure → Bool → Prog (Unit {0})
  require f ok = if ok then pure tt else close_and_fail f

  unfoldable pub call_if_file : (c : Prog Bool) → Prog Bool
  call_if_file c = if has_token_file then c else pure false

  unfoldable pub log_in : Bool → Prog (Unit {0})
  unfolding call
  log_in true = pure tt
  log_in false = do
    ok ← call lib login
    _ ← require login_failed ok
    _ ← call_if_file (call lib save_credentials)
    pure tt

  unfoldable pub list_again : Prog Bool
  unfolding call
  list_again = do
    ok ← call lib reauthenticate
    _ ← require reauthentication_failed ok
    call lib get_devices

  -- The `try` around `get_devices`
  unfoldable pub list_devices : Prog Bool
  list_devices t = elim (lib.answers t get_devices) [
    | replies ok ↦ (returned ok, get_devices ∷ t)
    | raises e ↦ elim e [
      | token_error ↦ list_again (get_devices ∷ t)
      | other_error ↦ (raised (library_error other_error), get_devices ∷ t)
    ]
  ]

  unfoldable pub update_device : Option Device → Prog Device
  unfolding call
  update_device none = close_and_fail not_found
  update_device (some d) = do _ ← call lib update; pure d

  -- The loop over the humidifiers
  unfoldable pub pick_device : Prog Device
  unfolding find_device
  pick_device t = update_device (find_device cid (lib.humidifiers t)) t

  unfoldable pub connect : Prog Device
  unfolding call
  connect = do
    _ ← call lib enter
    loaded ← call_if_file (call lib load_credentials)
    _ ← log_in loaded
    _ ← list_devices
    pick_device

  -- What a `finally` that closes the manager makes of the end of its body.
  unfoldable pub after_close : {A : Type 0} → Done A → Done Bool → Done A
  after_close end (returned ok) = end
  after_close end (raised f) = raised f

  unfoldable pub closing : {A : Type 0} → Prog A → Prog A
  unfolding call
  closing m t = let (end, t') = m t in (after_close end (call lib close t').0, close ∷ t')

  unfoldable pub is_in_mode : Device → Str → Prog Bool
  is_in_mode d mode t = (returned (str_eq (lib.state_of t d).mode mode), t)

  unfoldable pub expect : Failure → Bool → Prog (Unit {0})
  unfolding fail
  expect f ok = if ok then pure tt else fail f

  unfoldable pub ensure_mode : Str → Bool → Prog (Unit {0})
  unfolding call
  ensure_mode mode true = pure tt
  ensure_mode mode false = do ok ← call lib (set_mode mode); expect set_mode_failed ok

  -- The body of the `try` of `_set_humidity`
  unfoldable pub command : ℕ → Device → List Str → Prog (Unit {0})
  unfolding fail call
  command humidity d [] = fail no_mode
  command humidity d (auto_mode ∷ modes) = do
    in_mode ← is_in_mode d auto_mode
    _ ← ensure_mode auto_mode in_mode
    ok ← call lib (set_humidity humidity)
    expect set_humidity_failed ok

  unfoldable pub set_target : ℕ → Prog (Unit {0})
  set_target humidity = do d ← connect; closing (command humidity d d.mist_modes)

  unfoldable pub in_first_mode : Str → List Str → Bool
  in_first_mode mode [] = false
  in_first_mode mode (auto_mode ∷ modes) = str_eq mode auto_mode

  unfoldable pub read_state : Device → Prog HumidifierState
  read_state d t =
      let state = lib.state_of t d in
      (
        returned (record {
          cid = d.cid;
          name = d.name;
          device_type = d.device_type;
          current_target_humidity = state.auto_target_humidity;
          is_in_auto_mode = in_first_mode state.mode d.mist_modes;
        }),
        t,
      )

  unfoldable pub fetch_state : Prog HumidifierState
  fetch_state = do d ← connect; closing (read_state d)
