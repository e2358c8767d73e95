-- ===== src/Access/Cookies.antt =====
-- Where authenticated cookies come from. A holder may keep every cookie that it ever got and send
-- any of them; the signature keeps it from making one.
use esp32_home_display.Prelude.{
  ℕ, ◌≡◌, refl, Bool, true, false, ◌&&◌, ◌||◌, not, List, [], ◌∷◌, arith,
}
use esp32_home_display.Text.{Str, str_eq, is_empty}
use esp32_home_display.RateLimit.{MapStore}
use esp32_home_display.Access.{
  AccessConfig, Request, Verdict, granted, rejected, limited, crashed, check_limit, check_password,
  login, post_login, post_logout,
}

-- The limiter's store, the cookies that were sent out, and the passwords that were tried.
pub record World (S : Type 0) : Type 0 where
  pub store : S
  pub issued : List Bool
  pub tried : List Str

abbrev pub was_tried : Str → List Str → Bool
was_tried p [] = false
was_tried p (q ∷ qs) = str_eq q p || was_tried p qs

-- An authenticated cookie was sent out.
abbrev pub any_authenticated : List Bool → Bool
any_authenticated [] = false
any_authenticated (c ∷ cs) = c || any_authenticated cs

-- A request carries a cookie that was sent out, or none, which counts as one that is not
-- authenticated.
abbrev pub carries : Bool → List Bool → Bool
carries cookie issued = not cookie || any_authenticated issued

module _ {S : Type 0} (m : MapStore S) (hz : ℕ) (cfg : AccessConfig) where
  pub data Step : World S → World S → Type 0 where
    log_in :
        (w : World S) (password : Str) (request : Request)
        → carries request.authenticated w.issued ≡ true
        → Step w (record {
          store = (post_login m hz cfg password request w.store).0;
          issued = (post_login m hz cfg password request w.store).1.1 ∷ w.issued;
          tried = password ∷ w.tried;
        })
    log_out :
        (w : World S) (request : Request)
        → carries request.authenticated w.issued ≡ true
        → Step w (record w { issued = post_logout request ∷ w.issued })

  pub data Reach (w : World S) : World S → Type 0 where
    here : Reach w w
    next : {u v : World S} → Reach w u → Step u v → Reach w v

  -- Each authenticated cookie goes back to a login with the password.
  abbrev IsEarned : World S → Type 0
  IsEarned w =
      (not (any_authenticated w.issued)
        || (not (is_empty cfg.dashboard_password) && was_tried cfg.dashboard_password w.tried))
      ≡ true

  login_cookie :
      (password : Str) (authenticated : Bool) (v : Verdict)
      → (not (check_password cfg password authenticated v).1
          || (authenticated
              || (not (is_empty cfg.dashboard_password) && str_eq password cfg.dashboard_password)))
        ≡ true
  unfolding check_password
  login_cookie password authenticated granted = ground arith
  login_cookie password authenticated (rejected e) = ground arith
  login_cookie password authenticated (limited n) = ground arith
  login_cookie password authenticated crashed = ground arith

  Step-IsEarned : {w v : World S} → Step w v → IsEarned w → IsEarned v
  unfolding post_login post_logout
  Step-IsEarned (log_in w password request c) h =
      earned_by_login
        (check_password cfg password request.authenticated
          (check_limit m hz cfg login request w.store).1).1
        request.authenticated (any_authenticated w.issued) (not (is_empty cfg.dashboard_password))
        (str_eq password cfg.dashboard_password) (was_tried cfg.dashboard_password w.tried)
        (login_cookie password request.authenticated (check_limit m hz cfg login request w.store).1)
        c h
    where
      earned_by_login :
          (cookie old any key fits tried : Bool)
          → (not cookie || (old || (key && fits))) ≡ true
          → (not old || any) ≡ true
          → (not any || (key && tried)) ≡ true
          → (not (cookie || any) || (key && (fits || tried))) ≡ true
      earned_by_login cookie old any key fits tried a b d = ground arith
  Step-IsEarned (log_out w request c) h = h

  Reach-IsEarned : {w v : World S} → IsEarned w → Reach w v → IsEarned v
  Reach-IsEarned h here = h
  Reach-IsEarned h (next r s) = Step-IsEarned s (Reach-IsEarned h r)

  -- If an authenticated cookie was ever sent out, then a password is configured and somebody has
  -- tried exactly that one: this holds in every world that logins and logouts lead to from one in
  -- which no cookie was sent out.
  pub Reach-was_tried :
      (store : S) (w : World S)
      → Reach (record { store = store; issued = []; tried = [] }) w
      → any_authenticated w.issued ≡ true
      → (is_empty cfg.dashboard_password ≡ false)
        × (was_tried cfg.dashboard_password w.tried ≡ true)
  Reach-was_tried store w r h =
      let earned = Reach-IsEarned refl r in (ground (arith, earned), ground (arith, earned))
