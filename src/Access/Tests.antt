-- ===== src/Access/Tests.antt =====
-- A dashboard, a device and a login.
use esp32_home_display.Prelude.{◌≡◌, refl, true, false, ◌&&◌, none, some, [], ◌∷◌}
use esp32_home_display.Text.{codes, str_eq, is_empty}
use esp32_home_display.Dict.{Dict, lookup}
use esp32_home_display.RateLimit.{
  TokenBucketState, memory_map_store, host_of, available, consume, dependency,
}
use esp32_home_display.Access.{
  AccessConfig, Request, api_key_bulk_write, api_key_read, frontend, login, device_guard,
  sensor_read_limit, check_limit, limiter_of, post_login,
}
use esp32_home_display.Access.Guards.{
  is_granted, may_read, has_key, has_token, sensor_read_limit-granted,
}
use esp32_home_display.Access.Buckets.{attempts, check_limit-attempts}
use esp32_home_display.Access.Cookies.{World, here, next, log_in, was_tried, Reach-was_tried}

abbrev cfg : AccessConfig
cfg = record {
  api_key = codes "k7Qx";
  dashboard_password = codes "open";
  read = record { limit = 60; period = 60 };
  live_write = record { limit = 10; period = 60 };
  bulk_write = record { limit = 120; period = 60 };
  burst = true;
  frontend = record { limit = 120; period = 60 };
  login = record { limit = 3; period = 60 };
}

abbrev visitor : Request
visitor = record {
  x_api_key = none;
  authenticated = false;
  client = some (codes "10.0.0.2");
  now = 5;
}

abbrev neighbour : Request
neighbour = record {
  x_api_key = none;
  authenticated = false;
  client = some (codes "10.0.0.3");
  now = 7;
}

abbrev device : Request
device = record { x_api_key = some (codes "k7Qx"); authenticated = false; client = none; now = 9 }

abbrev empty_store : Dict TokenBucketState
empty_store = []

sensor_read_limit-granted_example :
    (is_granted (sensor_read_limit memory_map_store 1 cfg device empty_store).1
      ≡ may_read memory_map_store 1 cfg device empty_store)
    × (is_granted (device_guard memory_map_store 1 cfg api_key_bulk_write device empty_store).1 ≡ (
        has_key cfg device.x_api_key
        && has_token memory_map_store 1 cfg api_key_bulk_write device empty_store))
sensor_read_limit-granted_example =
    sensor_read_limit-granted memory_map_store 1 cfg api_key_bulk_write device empty_store

check_limit-attempts_example :
    (check_limit memory_map_store 1 cfg login visitor (
      attempts memory_map_store 1 cfg
        ((login, neighbour) ∷ (frontend, visitor) ∷ (api_key_read, device) ∷ [])
        empty_store)).1
    ≡ (check_limit memory_map_store 1 cfg login visitor empty_store).1
unfolding str_eq host_of
check_limit-attempts_example =
    check_limit-attempts memory_map_store 1 cfg login visitor
      ((login, neighbour) ∷ (frontend, visitor) ∷ (api_key_read, device) ∷ []) empty_store refl

abbrev start : World (Dict TokenBucketState)
start = record { store = empty_store; issued = []; tried = [] }

abbrev after_login : World (Dict TokenBucketState)
after_login = record {
  store = (post_login memory_map_store 1 cfg (codes "open") visitor empty_store).0;
  issued = (post_login memory_map_store 1 cfg (codes "open") visitor empty_store).1.1 ∷ [];
  tried = codes "open" ∷ [];
}

Reach-was_tried_example :
    (is_empty cfg.dashboard_password ≡ false)
    × (was_tried cfg.dashboard_password after_login.tried ≡ true)
unfolding post_login dependency consume limiter_of available lookup is_empty str_eq
Reach-was_tried_example =
    Reach-was_tried memory_map_store 1 cfg empty_store after_login
      (next here (log_in start (codes "open") visitor refl)) refl
