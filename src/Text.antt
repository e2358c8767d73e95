-- ===== src/Text.antt =====
-- Python's `str` as the list of its code points: equality, `upper` on ASCII letters, prefixes.
pub mod Laws
use Prim.Native.Char.{code}
use Prim.Native.String.{String}
use esp32_home_display.Prelude.{
  ℕ, ◌-◌, Bool, true, false, ◌&&◌, List, [], ◌∷◌, map, leb, ◌==◌, if◌then◌else◌,
}

abbrev pub Str : Type 0
Str = List ℕ

-- A literal of the source, as its code points.
abbrev pub codes : String → Str
codes String.[] = []
codes (String.◌∷◌ c s) = code c ∷ codes s

unfoldable pub str_eq : Str → Str → Bool
str_eq [] [] = true
str_eq [] (d ∷ t) = false
str_eq (c ∷ s) [] = false
str_eq (c ∷ s) (d ∷ t) = (c == d) && str_eq s t

-- `not value`, for a string
unfoldable pub is_empty : Str → Bool
is_empty [] = true
is_empty (c ∷ s) = false

unfoldable pub upper_char : ℕ → ℕ
upper_char c = if leb b'a' c && leb c b'z' then c - 32 else c

-- `str.upper`, on ASCII letters; other code points are kept.
unfoldable pub upper : Str → Str
unfolding upper_char
upper = map upper_char

unfoldable pub starts_with : Str → Str → Bool
starts_with s [] = true
starts_with [] (d ∷ t) = false
starts_with (c ∷ s) (d ∷ t) = (c == d) && starts_with s t

-- `value in {…}`, for strings
unfoldable pub str_member : Str → List Str → Bool
unfolding str_eq
str_member s [] = false
str_member s (t ∷ ts) = if str_eq s t then true else str_member s ts
