-- ===== src/Settings/Checks.antt =====
-- What each single check of a configuration establishes.
use esp32_home_display.Prelude.{
  ℕ, ◌≤◌, ◌≡◌, refl, false, List, [], ◌∷◌, ◌++◌, pos, negsuc, length, arith,
}
use esp32_home_display.Text.{Str, codes, is_empty, str_member}
use esp32_home_display.Settings.{
  Value, absent, other, text, flag, number, real, Errors, all_errors, RateLimit, check_required,
  check_strong, check_int_range, check_positive_int, validate_rate_limit, check_order,
}

abbrev pub AllNone : List Errors → Type 0
AllNone [] = Unit {0}
AllNone (e ∷ es) = (e ≡ []) × AllNone es

pub all_errors-AllNone : (es : List Errors) → all_errors es ≡ [] → AllNone es
all_errors-AllNone [] h = tt
all_errors-AllNone ([] ∷ es) h = (refl, all_errors-AllNone es h)
all_errors-AllNone ((x ∷ e) ∷ es) h = absurd (ground arith)

-- A number between two others.
abbrev pub IsBetween : ℕ → ℕ → Value → Type 0
IsBetween lo hi v = (n : ℕ) × (v ≡ number (pos n)) × (lo ≤ n) × (n ≤ hi)

abbrev pub IsPositive : Value → Type 0
IsPositive v = (n : ℕ) × (v ≡ number (pos n)) × (1 ≤ n)

abbrev pub IsPositiveLimit : RateLimit → Type 0
IsPositiveLimit rl = IsPositive rl.limit × IsPositive rl.period

-- A text that is not empty, at least so long and none of the known ones.
abbrev pub IsStrong : ℕ → List Str → Value → Type 0
IsStrong shortest known v =
    (s : Str) × (v ≡ text s)
    × (is_empty s ≡ false)
    × (shortest ≤ length s)
    × (str_member s known ≡ false)

pub check_int_range-IsBetween :
    (name : Str) (lo hi : ℕ) (v : Value) → check_int_range name lo hi v ≡ [] → IsBetween lo hi v
unfolding check_int_range
check_int_range-IsBetween name lo hi (number (pos n)) h = (n, refl, ground arith, ground arith)
check_int_range-IsBetween name lo hi (number (negsuc n)) h = absurd (ground arith)
check_int_range-IsBetween name lo hi absent h = absurd (ground arith)
check_int_range-IsBetween name lo hi other h = absurd (ground arith)
check_int_range-IsBetween name lo hi (text s) h = absurd (ground arith)
check_int_range-IsBetween name lo hi (flag b) h = absurd (ground arith)
check_int_range-IsBetween name lo hi (real x) h = absurd (ground arith)

pub check_positive_int-IsPositive :
    (name : Str) (v : Value) → check_positive_int name v ≡ [] → IsPositive v
unfolding check_positive_int
check_positive_int-IsPositive name (number (pos n)) h = (n, refl, ground arith)
check_positive_int-IsPositive name (number (negsuc n)) h = absurd (ground arith)
check_positive_int-IsPositive name absent h = absurd (ground arith)
check_positive_int-IsPositive name other h = absurd (ground arith)
check_positive_int-IsPositive name (text s) h = absurd (ground arith)
check_positive_int-IsPositive name (flag b) h = absurd (ground arith)
check_positive_int-IsPositive name (real x) h = absurd (ground arith)

pub validate_rate_limit-IsPositiveLimit :
    (prefix : Str) (rl : RateLimit) → validate_rate_limit prefix rl ≡ [] → IsPositiveLimit rl
unfolding validate_rate_limit
validate_rate_limit-IsPositiveLimit prefix rl h =
    let none =
      all_errors-AllNone
        (check_positive_int (prefix ++ codes ".limit") rl.limit
          ∷ check_positive_int (prefix ++ codes ".period") rl.period
          ∷ [])
        h in
    (
      check_positive_int-IsPositive (prefix ++ codes ".limit") rl.limit none.0,
      check_positive_int-IsPositive (prefix ++ codes ".period") rl.period none.1.0,
    )

pub text-IsStrong :
    (name : Str) (shortest : ℕ) (known : List Str) (v : Value)
    → check_required name v ≡ []
    → check_strong name shortest known v ≡ []
    → IsStrong shortest known v
unfolding check_required check_strong
text-IsStrong name shortest known (text s) h k = (s, refl, ground arith, ground arith, ground arith)
text-IsStrong name shortest known absent h k = absurd (ground arith)
text-IsStrong name shortest known other h k = absurd (ground arith)
text-IsStrong name shortest known (flag b) h k = absurd (ground arith)
text-IsStrong name shortest known (number n) h k = absurd (ground arith)
text-IsStrong name shortest known (real x) h k = absurd (ground arith)

pub check_order_lem :
    (name : Str) (lo hi : ℕ)
    → lo ≤ 100
    → hi ≤ 100
    → check_order name (number (pos lo)) (number (pos hi)) ≡ []
    → lo ≤ hi
unfolding check_order
check_order_lem name lo hi low high h = ground arith
