-- ===== src/Levoit/Run.antt =====
-- What one run does to the device.
use esp32_home_display.Prelude.{
  ℕ, ◌≤◌, ◌≡◌, refl, sym, ◌∙◌, ◌⊎◌, inl, inr, Bool, false, Option, none, some, ℤ, arith, Bool-cases,
  Option-cases,
}
use esp32_home_display.Float.{Float}
use esp32_home_display.Arithmetic.{Arithmetic}
use esp32_home_display.Levoit.{Action, set, skip, LevoitControlDecision, Limits, compute_decision}
use esp32_home_display.Levoit.Runner.{
  Response, Fetched, fetched, fails, RunError, fetch_switchbot_latest, SwitchbotLatestReading,
  VeSyncClient, LevoitConfig, device_target_of, act, decide_and_act, fetch_and_act, run_once,
}
use esp32_home_display.Levoit.Decision.{IsExactIf-some, compute_decision_exact}

-- What may have happened to the device and the service: nothing, the state was read, or after that
-- one command with a target within the limits was sent.
pub data Effect {W : Type 0} (limits : Limits) (dry_run : Bool) (vesync : Option (VeSyncClient W))
    (w : W) : W → Type 0 where
  untouched : Effect limits dry_run vesync w w
  state_read :
      (client : VeSyncClient W)
      → vesync ≡ some client
      → Effect limits dry_run vesync w (client.fetch_state w).1
  command_sent :
      (client : VeSyncClient W) (c : ℕ)
      → vesync ≡ some client
      → dry_run ≡ false
      → limits.minimum_humidity ≤ c
      → c ≤ limits.maximum_humidity
      → Effect limits dry_run vesync w (client.set_humidity c (client.fetch_state w).1).1

Action-cases : (a : Action) → (a ≡ set) ⊎ (a ≡ skip)
Action-cases set = inl refl
Action-cases skip = inr refl

Fetched-cases :
    {A : Type 0} (r : Fetched A) → ((a : A) × (r ≡ fetched a)) ⊎ ((x : RunError) × (r ≡ fails x))
Fetched-cases (fetched a) = inl (a, refl)
Fetched-cases (fails x) = inr (x, refl)

module _ (a : Arithmetic) (limits : Limits)
    (h : limits.minimum_humidity ≤ limits.maximum_humidity) where
  commanded_within :
      (t humidity : Option Float) (target : Float) (device : Option ℤ) (d : LevoitControlDecision)
      (c : ℕ)
      → compute_decision a t humidity target limits none device ≡ some d
      → d.commanded_humidity ≡ some c
      → (limits.minimum_humidity ≤ c) × (c ≤ limits.maximum_humidity)
  commanded_within none humidity target device d c made e =
      unfold compute_decision in absurd (ground (arith, made, e))
  commanded_within (some t) humidity target device d c made e =
      let exact =
        IsExactIf-some _ limits none device _ d
          (compute_decision_exact a t humidity target limits none device h) made in
      let same : exact.commanded ≡ c = some_injective exact.commanded c (sym exact.commands ∙ e) in
      rw (sym same) (exact.at_least, exact.at_most)
    where
      some_injective : (a b : ℕ) → some a ≡ some b → a ≡ b
      some_injective a b e = ground arith

module _ {W : Type 0} (a : Arithmetic) (dry_run : Bool) where
  act-cases :
      (client : VeSyncClient W) (d : LevoitControlDecision) (w : W)
      → ((act a dry_run (some client) d w).1 ≡ w)
        ⊎ ((c : ℕ) × (d.commanded_humidity ≡ some c)
            × (dry_run ≡ false)
            × ((act a dry_run (some client) d w).1 ≡ (client.set_humidity c w).1))
  unfolding act
  act-cases client d w = elim (Action-cases d.action) [
    | inr e ↦ inl (rw e refl)
    | inl e ↦ elim (Bool-cases dry_run) [
      | inl f ↦ inl (rw (e, f) refl)
      | inr f ↦ elim (Option-cases d.commanded_humidity) [
        | inl g ↦ inl (rw (e, f, g) refl)
        | inr (c, g) ↦ inr (c, g, f, rw (e, f, g) refl)
      ]
    ]
  ]

  act_idle : (d : LevoitControlDecision) (w : W) → (act a dry_run none d w).1 ≡ w
  unfolding act
  act_idle d w = elim (Action-cases d.action) [
    | inr e ↦ rw e refl
    | inl e ↦ elim (Bool-cases dry_run) [ inl f ↦ rw (e, f) refl | inr f ↦ rw (e, f) refl ]
  ]

  module _ (limits : Limits) (h : limits.minimum_humidity ≤ limits.maximum_humidity) where
    acts :
        (client : VeSyncClient W) (d : LevoitControlDecision) (w : W)
        → ((c : ℕ)
            → d.commanded_humidity ≡ some c
            → (limits.minimum_humidity ≤ c) × (c ≤ limits.maximum_humidity))
        → Effect limits dry_run
            (some client)
            w
            (act a dry_run (some client) d (client.fetch_state w).1).1
    acts client d w within = elim (act-cases client d (client.fetch_state w).1) [
      | inl e ↦ rw e (state_read client refl)
      | inr (c, commands, live, e) ↦
          rw e (command_sent client c refl live (within c commands).0 (within c commands).1)
    ]

    fetch_and_act-Effect :
        (target : Float) (vesync : Option (VeSyncClient W)) (reading : SwitchbotLatestReading)
        (w : W)
        → Effect limits dry_run vesync w (fetch_and_act a limits target dry_run vesync reading w).1
    unfolding fetch_and_act decide_and_act
    fetch_and_act-Effect target none reading w =
        elim (Option-cases (
          compute_decision a reading.temperature_c reading.humidity_pct target limits none
            (device_target_of none))) [
              | inl e ↦ rw (fetch_and_act, decide_and_act, e) untouched
              | inr (d, e) ↦ rw (fetch_and_act, decide_and_act, e, act_idle d w) untouched
            ]
    fetch_and_act-Effect target (some client) reading w =
        elim (Option-cases (client.fetch_state w).0) [
          | inl e ↦ rw (fetch_and_act, e) (state_read client refl)
          | inr (s, e) ↦
              let device = device_target_of (some s) in
              elim (Option-cases (
                compute_decision a reading.temperature_c reading.humidity_pct target limits none
                  device)) [
                    | inl g ↦ rw (fetch_and_act, e, decide_and_act, g) (state_read client refl)
                    | inr (d, g) ↦
                        rw (fetch_and_act, e, decide_and_act, g)
                          (acts client d w (λ c.
                            commanded_within a limits h reading.temperature_c reading.humidity_pct
                              target device d c g))
                  ]
        ]

-- Whatever happens in a run, the device and the service are left untouched, or their state was read
-- and nothing else, or after that a single command was sent; a command is sent only outside a dry
-- run, and its target is within the configured limits.
pub run_once-Effect :
    {W : Type 0} (a : Arithmetic) (cfg : LevoitConfig) (dry_run : Bool) (response : Response)
    (vesync : Option (VeSyncClient W)) (w : W)
    → cfg.limits.minimum_humidity ≤ cfg.limits.maximum_humidity
    → Effect cfg.limits dry_run vesync w (run_once a cfg dry_run response vesync w).1
unfolding run_once
run_once-Effect a cfg dry_run response vesync w h = elim (Option-cases cfg.switchbot_mac) [
  | inl e ↦ rw e untouched
  | inr (mac, e) ↦ elim (Option-cases cfg.target_absolute_humidity) [
    | inl f ↦ rw (e, f) untouched
    | inr (target, f) ↦ elim (Option-cases cfg.server_base_url) [
      | inl g ↦ rw (e, f, g) untouched
      | inr (url, g) ↦ elim (Fetched-cases (fetch_switchbot_latest mac response)) [
        | inr (x, k) ↦ rw (run_once, e, f, g, k) untouched
        | inl (reading, k) ↦
            rw (run_once, e, f, g, k)
              (fetch_and_act-Effect a dry_run cfg.limits h target vesync reading w)
      ]
    ]
  ]
]
