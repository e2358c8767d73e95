-- ===== src/Dict.antt =====
-- Python's `dict` with string keys, as an association list: `get`, `d[k] = v` and `pop(k, None)`.
use esp32_home_display.Prelude.{◌≡◌, refl, Option, none, some, List, [], ◌∷◌, arith, if◌then◌else◌}
use esp32_home_display.Text.{Str, str_eq}
use esp32_home_display.Text.Laws.{str_eq_iff, str_eq_refl}

abbrev pub Dict {ℓ} : Type ℓ → Type ℓ
Dict V = List (Str × V)

module _ {ℓ} {V : Type ℓ} where
  unfoldable pub lookup : Dict V → Str → Option V
  lookup [] k = none
  lookup ((j, v) ∷ d) k = if str_eq j k then some v else lookup d k

  unfoldable pub insert : Dict V → Str → V → Dict V
  insert [] k v = (k, v) ∷ []
  insert ((j, w) ∷ d) k v = if str_eq j k then (k, v) ∷ d else (j, w) ∷ insert d k v

  unfoldable pub remove : Dict V → Str → Dict V
  remove [] k = []
  remove ((j, w) ∷ d) k = let rest = remove d k in if str_eq j k then rest else (j, w) ∷ rest

  pub lookup-insert :
      (d : Dict V) (k j : Str) (v : V)
      → lookup (insert d k v) j ≡ (if str_eq k j then some v else lookup d j)
  unfolding lookup insert
  lookup-insert [] k j v = refl
  lookup-insert ((i, w) ∷ d) k j v =
      ground (arith, str_eq_iff k j, str_eq_iff i k, str_eq_iff i j, lookup-insert d k j v)

  pub lookup-remove :
      (d : Dict V) (k j : Str) → lookup (remove d k) j ≡ (if str_eq k j then none else lookup d j)
  unfolding lookup remove
  lookup-remove [] k j = ground arith
  lookup-remove ((i, w) ∷ d) k j =
      ground (arith, str_eq_iff k j, str_eq_iff i k, str_eq_iff i j, lookup-remove d k j)

  pub lookup-insert_self : (d : Dict V) (k : Str) (v : V) → lookup (insert d k v) k ≡ some v
  lookup-insert_self d k v = ground (arith, lookup-insert d k k v, str_eq_refl k)
