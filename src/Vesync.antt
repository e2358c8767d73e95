-- ===== src/Vesync.antt =====
-- server/app/levoit_vesync.py: the calls that the client makes of pyvesync, with its errors. The
-- library is a parameter: what each call comes back with, by the calls before it. A run leaves the
-- list of its calls, the latest first.
pub mod Client
pub mod Closed
pub mod Excused
pub mod Applied
pub mod Outcome
mod Tests
use esp32_home_display.Prelude.{ℕ, Bool, Option, List, [], ◌∷◌}
use esp32_home_display.Text.{Str}

pub data Exception : Type 0 where
  token_error other_error : Exception

pub data Call : Type 0 where
  enter load_credentials login save_credentials get_devices reauthenticate update close : Call
  set_mode : Str → Call
  set_humidity : ℕ → Call

abbrev pub Trace : Type 0
Trace = List Call

pub data Reply : Type 0 where
  raises : Exception → Reply
  replies : Bool → Reply

-- A humidifier that the library lists.
pub record Device : Type 0 where
  pub cid : Str
  pub name : Str
  pub device_type : Str
  pub mist_modes : List Str

pub record DeviceState : Type 0 where
  pub auto_target_humidity : Option ℕ
  pub mode : Str

pub record Library : Type 0 where
  pub answers : Trace → Call → Reply
  pub humidifiers : Trace → List Device
  pub state_of : Trace → Device → DeviceState

pub data Failure : Type 0 where
  library_error : Exception → Failure
  login_failed reauthentication_failed not_found no_mode : Failure
  set_mode_failed set_humidity_failed : Failure

-- How a coroutine ends.
pub data Done (A : Type 0) : Type 0 where
  returned : A → Done A
  raised : Failure → Done A

abbrev pub Prog : Type 0 → Type 0
Prog A = Trace → Done A × Trace

abbrev pub pure : {A : Type 0} → A → Prog A
pure a t = (returned a, t)

unfoldable pub fail : {A : Type 0} → Failure → Prog A
fail f t = (raised f, t)

-- The rest of a coroutine, after a step.
unfoldable pub go_on : {A B : Type 0} → (A → Prog B) → Done A × Trace → Done B × Trace
go_on k (returned a, t) = k a t
go_on k (raised f, t) = (raised f, t)

infixl 5 ◌>>=◌
abbrev pub ◌>>=◌ : {A B : Type 0} → Prog A → (A → Prog B) → Prog B
◌>>=◌ m k t = go_on k (m t)

-- The end of a call: an exception goes up.
unfoldable pub reply_of : Reply → Done Bool
reply_of (raises e) = raised (library_error e)
reply_of (replies ok) = returned ok

unfoldable pub call : Library → Call → Prog Bool
unfolding reply_of
call lib c t = (reply_of (lib.answers t c), c ∷ t)
