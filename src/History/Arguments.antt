-- ===== src/History/Arguments.antt =====
-- tools/switchbot_history_probe.py: what the command line's values are read as. An absent result
-- stands for an exception; texts are ASCII, as Python's `strip`, `lower` and `int` take them.
use esp32_home_display.Prelude.{
  ℕ, ◌+◌, ◌-◌, ◌*◌, ◌/◌, ◌%◌, ◌==◌, Bool, true, false, ◌&&◌, ◌||◌, Option, none, some, List, [],
  ◌∷◌, ℤ, pos, ◌-ℤ◌, length, drop, leb, ltb, if◌then◌else◌,
}
use esp32_home_display.Text.{Str, codes, starts_with, is_empty, str_member}
use esp32_home_display.History.{Bytes}

abbrev pub between : ℕ → ℕ → ℕ → Bool
between lo hi c = leb lo c && leb c hi

unfoldable pub is_space : ℕ → Bool
is_space c = c == b' ' || (between 9 13 c || between 28 31 c)

unfoldable pub lstrip : Str → Str
unfolding is_space
lstrip [] = []
lstrip (c ∷ s) = let rest = lstrip s in if is_space c then rest else c ∷ s

unfoldable pub keep_space : ℕ → Str → Str
unfolding is_space
keep_space c [] = if is_space c then [] else c ∷ []
keep_space c (d ∷ s) = c ∷ d ∷ s

unfoldable pub rstrip : Str → Str
unfolding keep_space
rstrip [] = []
rstrip (c ∷ s) = keep_space c (rstrip s)

unfoldable pub strip : Str → Str
unfolding lstrip rstrip
strip s = rstrip (lstrip s)

unfoldable pub lower_char : ℕ → ℕ
lower_char c = if between b'A' b'Z' c then c + 32 else c

unfoldable pub lower : Str → Str
unfolding lower_char
lower [] = []
lower (c ∷ s) = lower_char c ∷ lower s

-- `value.split(",")`: a comma ends the first part, or the character joins it.
unfoldable pub split_char : ℕ → List Str → List Str
split_char c [] = (if c == b',' then [] ∷ [] ∷ [] else (c ∷ []) ∷ [])
split_char c (part ∷ parts) = if c == b',' then [] ∷ part ∷ parts else (c ∷ part) ∷ parts

unfoldable pub split_commas : Str → List Str
unfolding split_char
split_commas [] = [] ∷ []
split_commas (c ∷ s) = split_char c (split_commas s)

unfoldable pub digit_of : ℕ → Option ℕ
digit_of c =
    if between b'0' b'9' c
    then some (c - b'0')
    else if between b'a' b'z' c
    then some (c - b'a' + 10)
    else if between b'A' b'Z' c
    then some (c - b'A' + 10)
    else none

-- The digits of `int(value, base)`: whether a digit must follow, and whether an underscore may.
unfoldable pub digits : ℕ → Bool → Bool → ℕ → Str → Option ℕ
unfolding digit_of
digits base needed may acc [] = if needed then none else some acc
digits base needed may acc (c ∷ s) =
    let after_underscore = digits base true false acc s in
    if c == b'_' then if may then after_underscore else none else elim (digit_of c) [
      | none ↦ none
      | some d ↦
          let rest = digits base false true (acc * base + d) s in if ltb d base then rest else none
    ]

unfoldable pub whole_number : Option ℕ → Option ℤ
whole_number none = none
whole_number (some n) = some (pos n)

unfoldable pub negative : Option ℕ → Option ℤ
negative none = none
negative (some n) = some (pos 0 -ℤ pos n)

-- `int(value, 10)`, of a value that is stripped
unfoldable pub int_10 : Str → Option ℤ
unfolding digits whole_number negative
int_10 [] = none
int_10 (c ∷ s) =
    if c == b'-'
    then negative (digits 10 true false 0 s)
    else if c == b'+'
    then whole_number (digits 10 true false 0 s)
    else whole_number (digits 10 true false 0 (c ∷ s))

unfoldable pub parse_int : Str → Option ℤ
unfolding strip lower int_10
parse_int raw =
    let value = lower (strip raw) in
    if starts_with value (codes "0x")
    then whole_number (digits 16 true true 0 (drop 2 value))
    else int_10 value

-- `replace("0x", "")`
unfoldable pub remove_0x : Str → Str
remove_0x [] = []
remove_0x (c ∷ []) = c ∷ []
remove_0x (c ∷ d ∷ s) =
    let rest = remove_0x s in
    let kept = remove_0x (d ∷ s) in if c == b'0' && d == b'x' then rest else c ∷ kept

-- `replace(text, "")`, for a text of one character
unfoldable pub remove_char : ℕ → Str → Str
remove_char x [] = []
remove_char x (c ∷ s) = let rest = remove_char x s in if c == x then rest else c ∷ rest

unfoldable pub hex_digit : ℕ → Option ℕ
unfolding digit_of
hex_digit c = elim (digit_of c) [ none ↦ none | some d ↦ if ltb d 16 then some d else none ]

unfoldable pub cons_byte : Option ℕ → Option ℕ → Option Bytes → Option Bytes
cons_byte (some high) (some low) (some bytes) = some ((high * 16 + low) ∷ bytes)
cons_byte none low bytes = none
cons_byte (some high) none bytes = none
cons_byte (some high) (some low) none = none

-- `bytes.fromhex`, which passes over the space between two bytes
unfoldable pub from_hex : Str → Option Bytes
unfolding hex_digit cons_byte
from_hex [] = some []
from_hex (c ∷ []) = if between 9 13 c || c == b' ' then some [] else none
from_hex (c ∷ d ∷ s) =
    let skipped = from_hex (d ∷ s) in
    let rest = from_hex s in
    if between 9 13 c || c == b' ' then skipped else cons_byte (hex_digit c) (hex_digit d) rest

unfoldable pub even_length : Str → Str
even_length s = if length s % 2 == 0 then s else b'0' ∷ s

abbrev pub no_bytes : List Str
no_bytes = [] ∷ codes "-" ∷ codes "none" ∷ codes "empty" ∷ []

unfoldable pub parse_hex_blob : Str → Option Bytes
unfolding strip lower remove_0x remove_char even_length from_hex
parse_hex_blob value =
    let raw = lower (strip value) in
    if str_member raw no_bytes
    then some []
    else from_hex (even_length (remove_char b' ' (remove_char b':' (remove_0x raw))))

unfoldable pub cons_result : {A : Type 0} → Option A → Option (List A) → Option (List A)
cons_result none rest = none
cons_result (some a) none = none
cons_result (some a) (some xs) = some (a ∷ xs)

unfoldable pub parse_blobs : List Str → Option (List Bytes)
unfolding cons_result parse_hex_blob
parse_blobs [] = some []
parse_blobs (part ∷ parts) = cons_result (parse_hex_blob part) (parse_blobs parts)

unfoldable pub parse_hex_blob_list : Str → Option (List Bytes)
unfolding strip split_commas parse_blobs
parse_hex_blob_list value =
    let raw = strip value in if is_empty raw then some [] else parse_blobs (split_commas raw)

unfoldable pub hex_char : ℕ → ℕ
hex_char d = if ltb d 10 then b'0' + d else b'a' + d - 10

-- `data.hex()`
unfoldable pub to_hex : Bytes → Str
unfolding hex_char
to_hex [] = []
to_hex (b ∷ bs) = hex_char (b / 16) ∷ hex_char (b % 16) ∷ to_hex bs

unfoldable pub hex_label : Bytes → Str
unfolding to_hex
hex_label [] = codes "none"
hex_label (b ∷ bs) = to_hex (b ∷ bs)

-- `for part in raw.split(",") if part.strip()`
unfoldable pub parse_parts : List Str → Option (List ℤ)
unfolding strip parse_int
parse_parts [] = some []
parse_parts (part ∷ parts) =
    let rest = parse_parts parts in
    if is_empty (strip part) then rest else cons_result (parse_int part) rest

unfoldable pub parse_probe_indexes : Str → Option (List ℤ)
unfolding strip split_commas parse_parts
parse_probe_indexes value =
    let raw = strip value in if is_empty raw then some [] else parse_parts (split_commas raw)
