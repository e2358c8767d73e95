-- ===== src/Vesync/Outcome.antt =====
-- How the runs of the client end.
use esp32_home_display.Prelude.{ℕ, ◌≡◌, refl, Bool, some, []}
use esp32_home_display.Text.{Str}
use esp32_home_display.Vesync.{Trace, enter, load_credentials, Device, Library, returned, call}
use esp32_home_display.Vesync.Client.{
  call_if_file, log_in, list_devices, find_device, pick_device, connect, command, set_target,
  read_state, fetch_state,
}
use esp32_home_display.Vesync.Closed.{IsClosed, set_target-IsClosed, fetch_state-IsClosed}
use esp32_home_display.Vesync.Excused.{
  FailsExcused, go_on-FailsExcused, connect-FailsExcused, command-FailsExcused,
  closing-FailsExcused,
}
use esp32_home_display.Vesync.Applied.{
  Applies, go_on-returned, update_device-found, set_target-Applies,
}

module _ (lib : Library) (cid : Str) (has_token_file : Bool) where
  connect-listed :
      (t out : Trace) (d : Device)
      → connect lib cid has_token_file t ≡ (returned d, out)
      → (s : Trace) × (find_device cid (lib.humidifiers s) ≡ some d)
  unfolding connect pick_device
  connect-listed t out d h =
      let (ok, t1, e1, g1) = go_on-returned _ (call lib enter t) d out h in
      let (loaded, t2, e2, g2) =
        go_on-returned _ (call_if_file lib cid has_token_file (call lib load_credentials) t1) d out
          g1 in
      let (u, t3, e3, g3) = go_on-returned _ (log_in lib cid has_token_file loaded t2) d out g2 in
      let (v, t4, e4, g4) = go_on-returned _ (list_devices lib cid has_token_file t3) d out g3 in
      (
        t4,
        update_device-found lib cid has_token_file (find_device cid (lib.humidifiers t4)) t4 out d
            g4,
      )

  set_target-FailsExcused :
      (humidity : ℕ) → FailsExcused lib cid (set_target lib cid has_token_file humidity [])
  unfolding set_target
  set_target-FailsExcused humidity =
      go_on-FailsExcused lib cid (connect lib cid has_token_file []) _
        (connect-FailsExcused lib cid has_token_file [])
        λ d t e.
          closing-FailsExcused lib cid has_token_file
            (command lib cid has_token_file humidity d d.mist_modes) t
            (command-FailsExcused lib cid has_token_file humidity d d.mist_modes t refl
              (connect-listed [] t d e))

  fetch_state-FailsExcused : FailsExcused lib cid (fetch_state lib cid has_token_file [])
  unfolding fetch_state read_state
  fetch_state-FailsExcused =
      go_on-FailsExcused lib cid (connect lib cid has_token_file []) _
        (connect-FailsExcused lib cid has_token_file [])
        λ d t e.
          closing-FailsExcused lib cid has_token_file (read_state lib cid has_token_file d) t tt

  -- Whatever the library answers: after `set_humidity`, and after `fetch_state`, the manager is closed
  -- by the last call, or the last call raised while the client was connecting. Where `set_humidity`
  -- returns, its last calls were a humidity that the device with the configured CID accepted, while in
  -- the first of its modes or directly after it accepted that mode, and the close. Where either raises,
  -- a call raised or was refused, or the library did not list the device, or the device has no mode.
  pub set_target_ends :
      (humidity : ℕ)
      → IsClosed lib (set_target lib cid has_token_file humidity []).1
        × IsClosed lib (fetch_state lib cid has_token_file []).1
        × Applies lib cid has_token_file humidity (set_target lib cid has_token_file humidity [])
        × FailsExcused lib cid (set_target lib cid has_token_file humidity [])
        × FailsExcused lib cid (fetch_state lib cid has_token_file [])
  set_target_ends humidity = (
    set_target-IsClosed lib cid has_token_file humidity [],
    fetch_state-IsClosed lib cid has_token_file [],
    set_target-Applies lib cid has_token_file humidity
        (set_target lib cid has_token_file humidity []) refl,
    set_target-FailsExcused humidity,
    fetch_state-FailsExcused,
  )
