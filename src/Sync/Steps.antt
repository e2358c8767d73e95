-- ===== src/Sync/Steps.antt =====
-- server/app/service.py: the loop over the sensors leaves alone what the insert and the renaming of a
-- sensor leave alone, as the readings and what is committed.
use esp32_home_display.Prelude.{
  ℕ, ◌≡◌, refl, arith, inl, inr, Option, none, some, List, [], ◌∷◌, Bool-cases,
}
use esp32_home_display.Text.{Str, codes, str_eq}
use esp32_home_display.Result.{Result, lift, gets, ◌>>=◌}
use esp32_home_display.Common.{validate_mac_address}
use esp32_home_display.Database.{Sensor, Session, Written-cases, done}
use esp32_home_display.Ingest.{get_sensor_by_mac, reconcile_sensor_name}
use esp32_home_display.Sync.{
  Progress, add_state, sync_loop, SensorIn, name_or_mac, insert_or_nothing, resolve, checked,
  get_or_create_sensor_for_sync,
}
use esp32_home_display.Database.Keeps.{Keeps, bind-Keeps}

module _ {D X : Type 0} (db : Session D) (view : D → X)
    (inserts : (d d' : D) (mac name : Str) (type : ℕ)
      → db.insert_sensor d mac name type ≡ done d' tt
      → view d' ≡ view d)
    (renames : (d : D) (s : Sensor) (name : Str) → view (db.rename_sensor d s name) ≡ view d) where
  insert_or_nothing-Keeps :
      (mac name : Str) (type : ℕ) → Keeps view (insert_or_nothing db mac name type)
  unfolding insert_or_nothing
  insert_or_nothing-Keeps mac name type d =
      elim (Written-cases (db.insert_sensor d mac name type)) [
        | inl (d1, _, e) ↦ ground (arith, inserts d d1 mac name type e)
        | inr (c, e) ↦ elim (Bool-cases (str_eq c (codes "sensors_pkey"))) [
          | inl f ↦ rw (insert_or_nothing, e, f) refl
          | inr f ↦ rw (insert_or_nothing, e, f) refl
        ]
      ]

  resolve-Keeps :
      (mac : Str) (name : Option Str) (type : ℕ) (known : Option Sensor)
      → Keeps view (resolve db mac name type known)
  unfolding resolve
  resolve-Keeps mac name type (some sensor) d = refl
  resolve-Keeps mac name type none d =
      bind-Keeps view (insert_or_nothing db mac (name_or_mac name mac) type)
        (λ _. gets (get_sensor_by_mac db mac))
        (insert_or_nothing-Keeps mac (name_or_mac name mac) type) (λ _ e. refl) d

  checked-Keeps :
      (name : Option Str) (type : ℕ) (known : Option Sensor)
      → Keeps view (checked db name type known)
  unfolding checked reconcile_sensor_name
  checked-Keeps name type none d = refl
  checked-Keeps none type (some sensor) d = ground arith
  checked-Keeps (some name) type (some sensor) d = ground (arith, renames d sensor name)

  lift-Keeps : {A : Type 0} (r : Result A) → Keeps view (lift r)
  lift-Keeps r d = refl

  pub get_or_create_sensor_for_sync-Keeps :
      (requested : SensorIn) (type : ℕ)
      → Keeps view (get_or_create_sensor_for_sync db requested type)
  unfolding get_or_create_sensor_for_sync
  get_or_create_sensor_for_sync-Keeps requested type =
      bind-Keeps view {B = Sensor} (lift (validate_mac_address requested.mac)) _
        (lift-Keeps (validate_mac_address requested.mac))
        (λ mac.
          bind-Keeps view {B = Sensor} (gets (get_sensor_by_mac db mac))
            (λ known. resolve db mac requested.name type known >>= λ sensor.
              checked db requested.name type sensor)
            (λ d. refl)
            (λ known.
              bind-Keeps view (resolve db mac requested.name type known)
                (λ sensor. checked db requested.name type sensor)
                (resolve-Keeps mac requested.name type known)
                (λ sensor. checked-Keeps requested.name type sensor)))

  pub sync_loop-Keeps :
      (now gap per_sensor type : ℕ) (requested : List SensorIn) (p : Progress)
      → Keeps view (sync_loop db now gap per_sensor type requested p)
  unfolding sync_loop
  sync_loop-Keeps now gap per_sensor type [] p d = refl
  sync_loop-Keeps now gap per_sensor type (r ∷ rs) p d =
      bind-Keeps view (get_or_create_sensor_for_sync db r type)
        (λ s. gets db.readings >>= λ rows.
          sync_loop db now gap per_sensor type rs (add_state now gap per_sensor p s rows))
        (get_or_create_sensor_for_sync-Keeps r type)
        (λ s.
          bind-Keeps view {B = Progress} (gets db.readings)
            (λ rows.
              sync_loop db now gap per_sensor type rs (add_state now gap per_sensor p s rows))
            (λ e. refl)
            (λ rows.
              sync_loop-Keeps now gap per_sensor type rs (add_state now gap per_sensor p s rows)))
        d
