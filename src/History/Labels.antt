-- ===== src/History/Labels.antt =====
-- The labels of byte strings, read back.
use esp32_home_display.Prelude.{
  ℕ, ◌*◌, ◌/◌, ◌%◌, ◌<◌, ◌==◌, ◌≡◌, refl, ap, ◌∙◌, inl, inr, Bool, true, false, ◌||◌, some, [], ◌∷◌,
  length, arith, All, Bool-cases,
}
use esp32_home_display.Text.{Str, codes, str_eq, str_member}
use esp32_home_display.History.{Bytes}
use esp32_home_display.History.Arguments.{
  between, is_space, lstrip, keep_space, rstrip, strip, lower_char, lower, digit_of, remove_0x,
  remove_char, hex_digit, cons_byte, from_hex, even_length, no_bytes, parse_hex_blob, hex_char,
  to_hex, hex_label,
}

abbrev is_hex_char : ℕ → Bool
is_hex_char c = between b'0' b'9' c || between b'a' b'f' c

abbrev IsHex : Str → Type 0
IsHex = All (λ c. is_hex_char c ≡ true)

hex_digit-hex_char : (d : ℕ) → d < 16 → hex_digit (hex_char d) ≡ some d
unfolding hex_digit hex_char digit_of
hex_digit-hex_char d h = ground arith

is_hex_char-hex_char : (d : ℕ) → d < 16 → is_hex_char (hex_char d) ≡ true
unfolding hex_char
is_hex_char-hex_char d h = ground arith

abbrev pub AreBytes : Bytes → Type 0
AreBytes = All (λ b. b < 256)

to_hex-IsHex : (bs : Bytes) → AreBytes bs → IsHex (to_hex bs)
unfolding to_hex
to_hex-IsHex [] h = tt
to_hex-IsHex (b ∷ bs) h = (
  is_hex_char-hex_char (b / 16) (omega (arith, h.0)),
  (is_hex_char-hex_char (b % 16) (omega arith), to_hex-IsHex bs h.1),
)

lstrip-IsHex : (s : Str) → IsHex s → lstrip s ≡ s
unfolding lstrip is_space
lstrip-IsHex [] h = refl
lstrip-IsHex (c ∷ s) h = ground (arith, h.0)

rstrip-IsHex : (s : Str) → IsHex s → rstrip s ≡ s
unfolding rstrip keep_space is_space
rstrip-IsHex [] h = refl
rstrip-IsHex (c ∷ []) h = ground (arith, h.0)
rstrip-IsHex (c ∷ d ∷ s) h = rw (rstrip-IsHex (d ∷ s) h.1) refl

lower-IsHex : (s : Str) → IsHex s → lower s ≡ s
unfolding lower lower_char
lower-IsHex [] h = refl
lower-IsHex (c ∷ s) h = ground (arith, h.0, lower-IsHex s h.1)

remove_0x-IsHex : (s : Str) → IsHex s → remove_0x s ≡ s
unfolding remove_0x
remove_0x-IsHex [] h = refl
remove_0x-IsHex (c ∷ []) h = refl
remove_0x-IsHex (c ∷ d ∷ s) h = ground (arith, h.1.0, remove_0x-IsHex (d ∷ s) h.1)

remove_char-IsHex : (x : ℕ) (s : Str) → is_hex_char x ≡ false → IsHex s → remove_char x s ≡ s
unfolding remove_char
remove_char-IsHex x [] other h = refl
remove_char-IsHex x (c ∷ s) other h = ground (arith, h.0, remove_char-IsHex x s other h.1)

length-to_hex : (bs : Bytes) → length (to_hex bs) ≡ 2 * length bs
unfolding to_hex
length-to_hex [] = refl
length-to_hex (b ∷ bs) = omega (arith, length-to_hex bs)

even_length-to_hex : (bs : Bytes) → even_length (to_hex bs) ≡ to_hex bs
unfolding even_length
even_length-to_hex bs = ground (arith, length-to_hex bs)

-- No text of hexadecimal digits, other than the empty one, is a name of the empty bytes.
str_member-IsHex : (c d : ℕ) (s : Str) → IsHex (c ∷ d ∷ s) → str_member (c ∷ d ∷ s) no_bytes ≡ false
unfolding str_member str_eq
str_member-IsHex c d s h = ground (arith, h.0, h.1.0)

from_hex-to_hex : (bs : Bytes) → AreBytes bs → from_hex (to_hex bs) ≡ some bs
unfolding from_hex to_hex cons_byte
from_hex-to_hex [] h = refl
from_hex-to_hex (b ∷ bs) h =
    let high = is_hex_char-hex_char (b / 16) (omega (arith, h.0)) in
    elim (Bool-cases (between 9 13 (hex_char (b / 16)) || hex_char (b / 16) == b' ')) [
      | inl e ↦ absurd (ground arith)
      | inr e ↦
          rw
            (
              e,
              hex_digit-hex_char (b / 16) (omega (arith, h.0)),
              hex_digit-hex_char (b % 16) (omega arith),
              from_hex-to_hex bs h.1,
            )
            (ap (λ n. some (n ∷ bs)) (omega arith))
    ]

strip-IsHex : (s : Str) → IsHex s → strip s ≡ s
unfolding strip
strip-IsHex s h = rw (lstrip-IsHex s h) (rstrip-IsHex s h)

nothing_removed : (s : Str) → IsHex s → remove_char b' ' (remove_char b':' (remove_0x s)) ≡ s
nothing_removed s h =
    rw (remove_0x-IsHex s h, remove_char-IsHex b':' s refl h) (remove_char-IsHex b' ' s refl h)

parse_hex_blob-IsHex :
    (s : Str)
    → IsHex s
    → str_member s no_bytes ≡ false
    → even_length s ≡ s
    → parse_hex_blob s ≡ from_hex s
unfolding parse_hex_blob
parse_hex_blob-IsHex s h some_bytes even =
    rw (strip-IsHex s h, lower-IsHex s h, some_bytes, nothing_removed s h, even) refl

parse_hex_blob-none : parse_hex_blob (codes "none") ≡ some []
unfolding parse_hex_blob str_member
parse_hex_blob-none = refl

-- The label of a byte string, as the probe prints it, is read back as the same bytes.
pub parse_hex_blob-hex_label :
    (bytes : Bytes) → AreBytes bytes → parse_hex_blob (hex_label bytes) ≡ some bytes
unfolding hex_label to_hex
parse_hex_blob-hex_label [] h = parse_hex_blob-none
parse_hex_blob-hex_label (b ∷ bs) h =
    let hex = to_hex-IsHex (b ∷ bs) h in
    parse_hex_blob-IsHex (to_hex (b ∷ bs)) hex
      (str_member-IsHex (hex_char (b / 16)) (hex_char (b % 16)) (to_hex bs) hex)
      (even_length-to_hex (b ∷ bs))
    ∙ from_hex-to_hex (b ∷ bs) h
