-- ===== src/Vesync/Applied.antt =====
-- What `set_humidity` has done where it returns.
use esp32_home_display.Prelude.{
  ℕ, ◌≡◌, ◌⊎◌, refl, sym, ap, ◌∙◌, inl, inr, Bool, true, false, Option, none, some, List, [], ◌∷◌,
  arith, Bool-cases,
}
use esp32_home_display.Text.{Str, str_eq}
use esp32_home_display.Vesync.{
  Trace, enter, load_credentials, update, close, set_mode, set_humidity, Call, replies, Device,
  Library, Failure, set_mode_failed, set_humidity_failed, Done, returned, raised, Prog, fail, go_on,
  reply_of, call,
}
use esp32_home_display.Vesync.Client.{
  close_and_fail, call_if_file, log_in, list_devices, find_device, update_device, pick_device,
  connect, after_close, closing, is_in_mode, expect, ensure_mode, command, set_target,
}
use esp32_home_display.Vesync.Closed.{Reply-cases}

-- A coroutine that returned has done so through its first step.
pub go_on-returned :
    {A B : Type 0} (k : A → Prog B) (r : Done A × Trace) (b : B) (out : Trace)
    → go_on k r ≡ (returned b, out)
    → (a : A) × (t : Trace) × (r ≡ (returned a, t)) × (k a t ≡ (returned b, out))
unfolding go_on
go_on-returned k (returned a, t) b out h = (a, t, refl, h)
go_on-returned k (raised f, t) b out h = absurd (ground arith)

call-returned :
    (lib : Library) (c : Call) (t : Trace) (ok : Bool) (out : Trace)
    → call lib c t ≡ (returned ok, out)
    → (lib.answers t c ≡ replies ok) × (out ≡ c ∷ t)
unfolding call reply_of
call-returned lib c t ok out h = elim (Reply-cases (lib.answers t c)) [
  | inl (e, r) ↦ absurd (ground arith)
  | inr (b, r) ↦ (ground arith, ground arith)
]

pair_parts :
    {A B : Type 0} (a : A) (b : B) (a' : A) (b' : B)
    → ◌≡◌ {A = A × B} (a, b) (a', b')
    → (a ≡ a') × (b ≡ b')
pair_parts a b a' b' h = (ap (λ p. p.0) h, ap (λ p. p.1) h)

module _ (lib : Library) (cid : Str) (has_token_file : Bool) where
  after_close-returned :
      {A : Type 0} (end : Done A) (closed : Done Bool) (a : A)
      → after_close lib cid has_token_file end closed ≡ returned a
      → end ≡ returned a
  unfolding after_close
  after_close-returned end (returned ok) a h = h
  after_close-returned end (raised f) a h = absurd (ground arith)

  expect-returned :
      (f : Failure) (ok : Bool) (t out : Trace)
      → expect lib cid has_token_file f ok t ≡ (returned tt, out)
      → (ok ≡ true) × (out ≡ t)
  unfolding expect fail
  expect-returned f true t out h = (refl, ground arith)
  expect-returned f false t out h = absurd (ground arith)

  closing-returned :
      {A : Type 0} (m : Prog A) (t : Trace) (a : A) (out : Trace)
      → closing lib cid has_token_file m t ≡ (returned a, out)
      → (t1 : Trace) × (m t ≡ (returned a, t1)) × (out ≡ close ∷ t1)
  unfolding closing
  closing-returned m t a out h =
      let (e, g) =
        pair_parts (after_close lib cid has_token_file (m t).0 (call lib close (m t).1).0)
          (close ∷ (m t).1) (returned a) out h in
      (
        (m t).1,
        (λ i. (after_close-returned (m t).0 (call lib close (m t).1).0 a e i, (m t).1)),
        sym g,
      )

  set_mode_trace :
      (auto : Str) (in_mode : Bool) (t out : Trace)
      → ensure_mode lib cid has_token_file auto in_mode t ≡ (returned tt, out)
      → ((in_mode ≡ true) × (out ≡ t))
        ⊎ ((out ≡ set_mode auto ∷ t) × (lib.answers t (set_mode auto) ≡ replies true))
  unfolding ensure_mode
  set_mode_trace auto true t out h = inl (refl, ground arith)
  set_mode_trace auto false t out h =
      let (ok, t1, e, g) = go_on-returned _ (call lib (set_mode auto) t) tt out h in
      let (answered, sent) = call-returned lib (set_mode auto) t ok t1 e in
      let (accepted, same) = expect-returned set_mode_failed ok t1 out g in
      inr (cc (same, sent), cc (answered, accepted))

  find_device-cid :
      (ds : List Device) (d : Device) → find_device cid ds ≡ some d → str_eq d.cid cid ≡ true
  unfolding find_device
  find_device-cid [] d h = absurd (ground arith)
  find_device-cid (x ∷ ds) d h = elim (Bool-cases (str_eq x.cid cid)) [
    | inl e ↦ let same : x ≡ d = ground arith in ap (λ y. str_eq y.cid cid) (sym same) ∙ e
    | inr e ↦ find_device-cid ds d (ground arith)
  ]

  pub update_device-found :
      (found : Option Device) (t out : Trace) (d : Device)
      → update_device lib cid has_token_file found t ≡ (returned d, out)
      → found ≡ some d
  unfolding update_device close_and_fail fail
  update_device-found none t out d h =
      let (ok, t1, e, g) = go_on-returned _ (call lib close t) d out h in absurd (ground arith)
  update_device-found (some x) t out d h =
      let (ok, t1, e, g) = go_on-returned _ (call lib update t) d out h in ground arith

  connect-cid :
      (t out : Trace) (d : Device)
      → connect lib cid has_token_file t ≡ (returned d, out)
      → str_eq d.cid cid ≡ true
  unfolding connect pick_device
  connect-cid t out d h =
      let (ok, t1, e1, g1) = go_on-returned _ (call lib enter t) d out h in
      let (loaded, t2, e2, g2) =
        go_on-returned _ (call_if_file lib cid has_token_file (call lib load_credentials) t1) d out
          g1 in
      let (u, t3, e3, g3) = go_on-returned _ (log_in lib cid has_token_file loaded t2) d out g2 in
      let (v, t4, e4, g4) = go_on-returned _ (list_devices lib cid has_token_file t3) d out g3 in
      find_device-cid (lib.humidifiers t4) d
        (update_device-found (find_device cid (lib.humidifiers t4)) t4 out d g4)

  -- The device was in the mode when its state was read, or the call before set it and was accepted.
  abbrev pub IsInMode : Device → Str → Trace → Type 0
  IsInMode d auto before =
      (str_eq (lib.state_of before d).mode auto ≡ true)
      ⊎ ((t : Trace) × (before ≡ set_mode auto ∷ t)
          × (lib.answers t (set_mode auto) ≡ replies true))

  -- The last calls: the device, which has the configured CID, was brought to the first of its modes,
  -- accepted the humidity, and the manager was closed.
  abbrev pub IsApplied : ℕ → Trace → Type 0
  IsApplied humidity out =
      (d : Device) × (auto : Str) × (modes : List Str) × (before : Trace) × (str_eq d.cid cid
        ≡ true)
      × (d.mist_modes ≡ auto ∷ modes)
      × IsInMode d auto before
      × (lib.answers before (set_humidity humidity) ≡ replies true)
      × (out ≡ close ∷ set_humidity humidity ∷ before)

  command-returned :
      (humidity : ℕ) (d : Device) (modes : List Str) (t out : Trace)
      → command lib cid has_token_file humidity d modes t ≡ (returned tt, out)
      → (auto : Str) × (rest : List Str) × (before : Trace) × (modes ≡ auto ∷ rest)
        × IsInMode d auto before
        × (lib.answers before (set_humidity humidity) ≡ replies true)
        × (out ≡ set_humidity humidity ∷ before)
  unfolding command fail is_in_mode go_on
  command-returned humidity d [] t out h = absurd (ground arith)
  command-returned humidity d (auto ∷ rest) t out h =
      let in_mode = str_eq (lib.state_of t d).mode auto in
      let (u, before, e1, g1) =
        go_on-returned _ (ensure_mode lib cid has_token_file auto in_mode t) tt out h in
      let (ok, t2, e2, g2) = go_on-returned _ (call lib (set_humidity humidity) before) tt out g1 in
      let (answered, sent) = call-returned lib (set_humidity humidity) before ok t2 e2 in
      let (accepted, same) = expect-returned set_humidity_failed ok t2 out g2 in
      (
        auto,
        rest,
        before,
        refl,
        elim (set_mode_trace auto in_mode t before e1) [
          | inl (e, still) ↦ inl (rw still e)
          | inr (moved, taken) ↦ inr (t, moved, taken)
        ],
        cc (answered, accepted),
        cc (same, sent),
      )

  -- What a run comes to that returns.
  abbrev pub Applies : ℕ → Done (Unit {0}) × Trace → Type 0
  Applies humidity (returned _, out) = IsApplied humidity out
  Applies humidity (raised f, out) = Unit {0}

  pub set_target-Applies :
      (humidity : ℕ) (r : Done (Unit {0}) × Trace)
      → set_target lib cid has_token_file humidity [] ≡ r
      → Applies humidity r
  unfolding set_target
  set_target-Applies humidity (raised f, out) h = tt
  set_target-Applies humidity (returned tt, out) h =
      let (d, t1, e, g) = go_on-returned _ (connect lib cid has_token_file []) tt out h in
      let (t2, e2, closed) =
        closing-returned (command lib cid has_token_file humidity d d.mist_modes) t1 tt out g in
      let (auto, modes, before, first, in_mode, answered, sent) =
        command-returned humidity d d.mist_modes t1 t2 e2 in
      (d, auto, modes, before, connect-cid [] t1 d e, first, in_mode, answered, cc (closed, sent))
