-- ===== src/Routes/Untouched.antt =====
-- What a request that is refused or fails leaves behind.
use esp32_home_display.Prelude.{◌≡◌, Bool, true, false}
use esp32_home_display.Result.{Result}
use esp32_home_display.Routes.{Answer, failed}
use esp32_home_display.Routes.Transaction.{Transaction}

abbrev pub is_failed : Answer → Bool
is_failed (failed status) = true
is_failed _ = false

-- A failure goes with what was committed before.
abbrev IsUndone : {D : Type 0} → D → Answer × Transaction D → Type 0
IsUndone start (answer, t) = is_failed answer ≡ true → t.committed ≡ start
