-- ===== src/Levoit/Runner.antt =====
-- server/app/levoit_runner.py and levoit_api_client.py: the reading of the sensor, and one run of the
-- controller.
use esp32_home_display.Prelude.{ℕ, Bool, Option, none, some, List, [], ◌∷◌, ℤ, if◌then◌else◌}
use esp32_home_display.Text.{Str, str_eq, upper}
use esp32_home_display.Float.{Float}
use esp32_home_display.Arithmetic.{Arithmetic}
use esp32_home_display.Levoit.{set, skip, LevoitControlDecision, Limits, compute_decision}

-- `SwitchbotLatestReading`, and an entry of the answer that it is read from: one that is no object or
-- names no MAC address, or one that may lack its time.
pub record SwitchbotLatestReading : Type 0 where
  pub mac : Str
  pub timestamp : Str
  pub temperature_c : Option Float
  pub humidity_pct : Option Float

pub data Entry : Type 0 where
  unnamed : Entry
  entry : Str → Option Str → Option Float → Option Float → Entry

-- The answer of the server to the request for the latest readings.
pub data Response : Type 0 where
  status_error request_error malformed : Response
  sensors : List Entry → Response

pub data RunError : Type 0 where
  no_switchbot_mac no_target no_server_base_url : RunError
  sensor_not_found api_error vesync_error no_credentials : RunError

pub data Fetched (A : Type 0) : Type 0 where
  fetched : A → Fetched A
  fails : RunError → Fetched A

-- The loop over the entries: the first one with the configured MAC address decides.
unfoldable pub find_entry : Str → List Entry → Fetched SwitchbotLatestReading
find_entry mac [] = fails sensor_not_found
find_entry mac (unnamed ∷ entries) = find_entry mac entries
find_entry mac (entry m recorded_at temperature_c humidity_pct ∷ entries) =
    let rest = find_entry mac entries in
    if str_eq (upper m) mac
    then elim recorded_at [
      | none ↦ fails api_error
      | some t ↦ fetched (record {
        mac = m;
        timestamp = t;
        temperature_c = temperature_c;
        humidity_pct = humidity_pct;
      })
    ]
    else rest

unfoldable pub fetch_switchbot_latest : Str → Response → Fetched SwitchbotLatestReading
unfolding find_entry
fetch_switchbot_latest switchbot_mac (sensors entries) = find_entry (upper switchbot_mac) entries
fetch_switchbot_latest switchbot_mac status_error = fails api_error
fetch_switchbot_latest switchbot_mac request_error = fails api_error
fetch_switchbot_latest switchbot_mac malformed = fails api_error

-- The parts of `HumidifierState` that the decision reads.
pub record HumidifierState : Type 0 where
  pub current_target_humidity : Option ℤ
  pub is_in_auto_mode : Bool

-- `LevoitVeSyncClient`, on the state of the device and the service: the state that is fetched, or a
-- `VeSyncError`, and whether a command succeeded.
pub record VeSyncClient (W : Type 0) : Type 0 where
  pub fetch_state : W → Option HumidifierState × W
  pub set_humidity : ℕ → W → Bool × W

pub record LevoitConfig : Type 0 where
  pub switchbot_mac : Option Str
  pub target_absolute_humidity : Option Float
  pub server_base_url : Option Str
  pub limits : Limits

-- The exit code 1 with its message, the report of the decision, or an exception of a formula.
pub data RunOutcome : Type 0 where
  crashes : RunOutcome
  exits_with : RunError → RunOutcome
  reports : LevoitControlDecision → RunOutcome

-- The device's target counts only in its automatic mode.
unfoldable pub device_target_of : Option HumidifierState → Option ℤ
device_target_of none = none
device_target_of (some state) =
    if state.is_in_auto_mode then state.current_target_humidity else none

module _ {W : Type 0} (a : Arithmetic) where
  -- What follows the decision: nothing on a skip or in a dry run, else one command.
  unfoldable pub act : Bool → Option (VeSyncClient W) → LevoitControlDecision → W → RunOutcome × W
  act dry_run vesync decision w = elim decision.action [
    | skip ↦ (reports decision, w)
    | set ↦ if dry_run then (reports decision, w) else elim vesync [
      | none ↦ (exits_with no_credentials, w)
      | some client ↦ elim decision.commanded_humidity [
        | none ↦ (reports decision, w)
        | some humidity ↦
            let (sent, w') = client.set_humidity humidity w in
            (if sent then reports decision else exits_with vesync_error, w')
      ]
    ]
  ]

  unfoldable pub decide_and_act :
      Limits
      → Float
      → Bool
      → Option (VeSyncClient W)
      → SwitchbotLatestReading
      → Option HumidifierState
      → W
      → RunOutcome × W
  unfolding act compute_decision device_target_of
  decide_and_act limits target dry_run vesync reading device_state w =
      elim (compute_decision a reading.temperature_c reading.humidity_pct target limits none
        (device_target_of device_state)) [
          | none ↦ (crashes, w)
          | some decision ↦ act dry_run vesync decision w
        ]

  unfoldable pub fetch_and_act :
      Limits → Float → Bool → Option (VeSyncClient W) → SwitchbotLatestReading → W → RunOutcome × W
  unfolding decide_and_act
  fetch_and_act limits target dry_run none reading w =
      decide_and_act limits target dry_run none reading none w
  fetch_and_act limits target dry_run (some client) reading w =
      let (state, w') = client.fetch_state w in
      elim state [
        | none ↦ (exits_with vesync_error, w')
        | some s ↦ decide_and_act limits target dry_run (some client) reading (some s) w'
      ]

  -- The configuration is checked before anything is fetched.
  unfoldable pub run_once :
      LevoitConfig → Bool → Response → Option (VeSyncClient W) → W → RunOutcome × W
  unfolding fetch_switchbot_latest fetch_and_act
  run_once cfg dry_run response vesync w = elim cfg.switchbot_mac [
    | none ↦ (exits_with no_switchbot_mac, w)
    | some mac ↦ elim cfg.target_absolute_humidity [
      | none ↦ (exits_with no_target, w)
      | some target ↦ elim cfg.server_base_url [
        | none ↦ (exits_with no_server_base_url, w)
        | some url ↦ elim (fetch_switchbot_latest mac response) [
          | fails error ↦ (exits_with error, w)
          | fetched reading ↦ fetch_and_act cfg.limits target dry_run vesync reading w
        ]
      ]
    ]
  ]
