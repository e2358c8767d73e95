-- ===== src/Access.antt =====
-- server/app/main.py: who may call what. The checks of the API key and of the session, the five rate
-- limiters of the application, and login and logout. The signed session cookie is what it carries:
-- whether its holder is authenticated.
pub mod Guards
pub mod Buckets
pub mod Cookies
mod Tests
use esp32_home_display.Prelude.{
  ℕ, ◌≡◌, Bool, true, false, ◌&&◌, ◌||◌, not, Option, none, some, List, [], ◌∷◌, if◌then◌else◌,
}
use esp32_home_display.Text.{Str, codes, str_eq, is_empty}
use esp32_home_display.Result.{Error, Result, ok, err, unauthorized, misconfigured, and_then}
use esp32_home_display.RateLimit.{
  MapStore, RateLimiter, Outcome, passed, too_many_requests, server_error, dependency,
}

-- A limit of the configuration.
pub record Limit : Type 0 where
  pub limit : ℕ
  pub period : ℕ

-- The parts of the configuration that the checks read.
pub record AccessConfig : Type 0 where
  pub api_key : Str
  pub dashboard_password : Str
  pub read : Limit
  pub live_write : Limit
  pub bulk_write : Limit
  pub burst : Bool
  pub frontend : Limit
  pub login : Limit

-- The parts of a request that the checks read.
pub record Request : Type 0 where
  pub x_api_key : Option Str
  pub authenticated : Bool
  pub client : Option Str
  pub now : ℕ

unfoldable pub verify_api_key : Str → Option Str → Result (Unit {0})
verify_api_key expected_api_key provided =
    if is_empty expected_api_key then err misconfigured else elim provided [
      | none ↦ err unauthorized
      | some provided_api_key ↦
          if str_eq provided_api_key expected_api_key then ok tt else err unauthorized
    ]

unfoldable pub require_api_key : AccessConfig → Request → Result (Unit {0})
unfolding verify_api_key
require_api_key cfg request = verify_api_key cfg.api_key request.x_api_key

unfoldable pub require_session : Request → Result (Unit {0})
require_session request = if request.authenticated then ok tt else err unauthorized

pub data AuthMode : Type 0 where
  api_key_mode session_mode : AuthMode

unfoldable pub require_session_or_api_key : AccessConfig → Request → Result AuthMode
unfolding verify_api_key require_session
require_session_or_api_key cfg request = elim request.x_api_key [
  | none ↦ and_then (require_session request) (λ _. ok session_mode)
  | some supplied ↦ and_then (verify_api_key cfg.api_key (some supplied)) (λ _. ok api_key_mode)
]

-- The limiters that `create_app` makes.
pub data LimiterName : Type 0 where
  api_key_read api_key_live_write api_key_bulk_write frontend login : LimiterName

unfoldable pub limiter_of : AccessConfig → LimiterName → RateLimiter
limiter_of cfg api_key_read = record {
  base_key = codes "api_key:read";
  limit = cfg.read.limit;
  period = cfg.read.period;
  burst = cfg.burst;
  per_ip = false;
}
limiter_of cfg api_key_live_write = record {
  base_key = codes "api_key:live_write";
  limit = cfg.live_write.limit;
  period = cfg.live_write.period;
  burst = cfg.burst;
  per_ip = false;
}
limiter_of cfg api_key_bulk_write = record {
  base_key = codes "api_key:bulk_write";
  limit = cfg.bulk_write.limit;
  period = cfg.bulk_write.period;
  burst = cfg.burst;
  per_ip = false;
}
limiter_of cfg frontend = record {
  base_key = codes "frontend";
  limit = cfg.frontend.limit;
  period = cfg.frontend.period;
  burst = true;
  per_ip = true;
}
limiter_of cfg login = record {
  base_key = codes "login";
  limit = cfg.login.limit;
  period = cfg.login.period;
  burst = true;
  per_ip = true;
}

-- What the dependencies of a route come to: its handler runs, or the request is answered before.
pub data Verdict : Type 0 where
  granted : Verdict
  rejected : Error → Verdict
  limited : ℕ → Verdict
  crashed : Verdict

unfoldable pub verdict_of : Outcome → Verdict
verdict_of passed = granted
verdict_of (too_many_requests secs) = limited secs
verdict_of server_error = crashed

-- The limiter that a caller of a sensor route counts for.
unfoldable pub limiter_for : AuthMode → LimiterName
limiter_for api_key_mode = api_key_read
limiter_for session_mode = frontend

-- The handler of a login that its limiter lets through: the answer, and what the cookie that goes
-- back carries.
unfoldable pub check_password : AccessConfig → Str → Bool → Verdict → Verdict × Bool
check_password cfg password authenticated granted =
    if is_empty cfg.dashboard_password || not (str_eq password cfg.dashboard_password)
    then (rejected unauthorized, authenticated)
    else (granted, true)
check_password cfg password authenticated (rejected error) = (rejected error, authenticated)
check_password cfg password authenticated (limited secs) = (limited secs, authenticated)
check_password cfg password authenticated crashed = (crashed, authenticated)

module _ {S : Type 0} (m : MapStore S) (hz : ℕ) (cfg : AccessConfig) where
  unfoldable pub check_limit : LimiterName → Request → S → S × Verdict
  unfolding verdict_of
  check_limit name request s =
      let (s', o) = dependency m hz (limiter_of cfg name) s request.client request.now in
      (s', verdict_of o)

  -- The dependencies of a device route: the key first, then its limiter.
  unfoldable pub device_guard : LimiterName → Request → S → S × Verdict
  unfolding require_api_key check_limit
  device_guard name request s = elim (require_api_key cfg request) [
    | err error ↦ (s, rejected error)
    | ok _ ↦ check_limit name request s
  ]

  -- `sensor_read_limit`, with the dependency that it has itself
  unfoldable pub sensor_read_limit : Request → S → S × Verdict
  unfolding require_session_or_api_key check_limit limiter_for
  sensor_read_limit request s = elim (require_session_or_api_key cfg request) [
    | err error ↦ (s, rejected error)
    | ok mode ↦ check_limit (limiter_for mode) request s
  ]

  -- `POST /login`: the limiter first, then the password.
  unfoldable pub post_login : Str → Request → S → S × (Verdict × Bool)
  unfolding check_limit check_password
  post_login password request s =
      let (s', verdict) = check_limit login request s in
      (s', check_password cfg password request.authenticated verdict)

-- `POST /logout`: what the cookie carries after it.
unfoldable pub post_logout : Request → Bool
post_logout request = false
