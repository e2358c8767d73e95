-- ===== src/Decoders/Signed.antt =====
-- What a Flower Care device stores is read back, and which of its entries a history read returns.
use esp32_home_display.Prelude.{
  ℕ, ◌+◌, ◌-◌, ◌/◌, ◌%◌, ◌<◌, ◌≤◌, ◌≡◌, refl, ◌∙◌, ap, inl, inr, Bool, true, false, Option, none,
  some, List, [], ◌∷◌, ◌++◌, ℤ, pos, negsuc, pos_part, neg_part, length, drop, take, ltb, ◌==◌,
  arith, Bool-cases, All,
}
use esp32_home_display.History.{Bytes}
use esp32_home_display.Decoders.{
  byte_at, from_little, from_little_signed, HistoryEntry, parse_history_entry, add_entry,
  read_entries,
}

-- Numbers of two and four bytes, the lowest byte first.
abbrev pub little_2 : ℕ → Bytes
little_2 n = n % 256 ∷ n / 256 % 256 ∷ []

abbrev pub little_4 : ℕ → Bytes
little_4 n = n % 256 ∷ n / 256 % 256 ∷ n / 65_536 % 256 ∷ n / 16_777_216 % 256 ∷ []

-- The two's complement of sixteen bits.
abbrev pub complement_16 : ℤ → ℕ
complement_16 (pos n) = n
complement_16 (negsuc n) = 65_535 - n

-- A stored entry: the two places that the decoder passes over hold any bytes.
abbrev pub stored_entry : HistoryEntry → ℕ → ℕ → ℕ → Bytes
stored_entry e x y z =
    little_4 e.ts
    ++ little_2 (complement_16 e.temperature_tenths)
    ++ x ∷ little_4 e.lux
    ++ e.moisture_pct ∷ little_2 e.conductivity_us_cm
    ++ y ∷ z ∷ []

from_little_4 : (n : ℕ) → n < 4_294_967_296 → from_little (little_4 n) ≡ n
unfolding from_little
from_little_4 n h = omega arith

from_little_2 : (n : ℕ) → n < 65_536 → from_little (little_2 n) ≡ n
unfolding from_little
from_little_2 n h = omega arith

signed_round_trip :
    (t : ℤ)
    → pos_part t < 32_768
    → neg_part t ≤ 32_768
    → from_little_signed (little_2 (complement_16 t)) ≡ t
unfolding from_little_signed
signed_round_trip (pos n) h k =
    rw (from_little_signed, from_little_2 n (omega arith)) (ground arith)
signed_round_trip (negsuc n) h k =
    rw (from_little_signed, from_little_2 (65_535 - n) (omega arith)) (ground arith)

full_entry :
    (payload : Bytes)
    → length payload ≡ 16
    → (from_little (take 4 payload) == 0xFFFFFFFF) ≡ false
    → parse_history_entry payload
      ≡ some (record {
        ts = from_little (take 4 payload);
        temperature_tenths = from_little_signed (take 2 (drop 4 payload));
        lux = from_little (take 4 (drop 7 payload));
        moisture_pct = byte_at payload 11;
        conductivity_us_cm = from_little (take 2 (drop 12 payload));
      })
unfolding parse_history_entry
full_entry payload h k =
    let whole : (length payload == 16) ≡ true = ground arith in rw (whole, k) refl

-- An entry that the device stores, whose numbers fit their places and whose time is not the mark of
-- an empty place, is read back as it is, with its sign.
pub parse_history_entry_round_trip :
    (e : HistoryEntry) (x y z : ℕ)
    → e.ts < 4_294_967_295
    → pos_part e.temperature_tenths < 32_768
    → neg_part e.temperature_tenths ≤ 32_768
    → e.lux < 4_294_967_296
    → e.conductivity_us_cm < 65_536
    → parse_history_entry (stored_entry e x y z) ≡ some e
parse_history_entry_round_trip e x y z h1 h2 h3 h4 h5 =
    let time = from_little_4 e.ts (omega arith) in
    full_entry (stored_entry e x y z) refl (in_use time)
    ∙ ap some (
        same_entry time (signed_round_trip e.temperature_tenths h2 h3) (from_little_4 e.lux h4)
          (from_little_2 e.conductivity_us_cm h5))
  where
    in_use :
        from_little (little_4 e.ts) ≡ e.ts → (from_little (little_4 e.ts) == 0xFFFFFFFF) ≡ false
    in_use same = ground arith

    same_entry :
        {a l c : ℕ} {t : ℤ}
        → a ≡ e.ts
        → t ≡ e.temperature_tenths
        → l ≡ e.lux
        → c ≡ e.conductivity_us_cm
        → record {
          ts = a;
          temperature_tenths = t;
          lux = l;
          moisture_pct = e.moisture_pct;
          conductivity_us_cm = c;
        }
          ≡ e
    same_entry e1 e2 e3 e4 = rw (e1, e2, e3, e4) refl

abbrev pub IsRecent : ℕ → ℕ → HistoryEntry → Type 0
IsRecent device_now seconds_ago e = (e.ts ≤ device_now) × (device_now ≤ e.ts + seconds_ago)

add_entry-IsRecent :
    (now ago : ℕ) (stop : Bool) (parsed : Option HistoryEntry) (rest : List HistoryEntry)
    → All (IsRecent now ago) rest
    → All (IsRecent now ago) (add_entry now ago stop parsed rest)
unfolding add_entry
add_entry-IsRecent now ago true none rest h = tt
add_entry-IsRecent now ago false none rest h = h
add_entry-IsRecent now ago stop (some x) rest h = elim (Bool-cases (ltb now x.ts)) [
  | inl f ↦ rw f h
  | inr f ↦ elim (Bool-cases (ltb ago (now - x.ts))) [
    | inl g ↦ rw (f, g) tt
    | inr g ↦ rw (f, g) ((ground arith, ground arith), h)
  ]
]

-- Every entry of a history read was stored at most the asked number of seconds ago, and not in the
-- device's future.
pub read_entries-IsRecent :
    (device_now seconds_ago : ℕ) (stop_on_empty : Bool) (raws : List Bytes)
    → All (IsRecent device_now seconds_ago) (read_entries device_now seconds_ago stop_on_empty raws)
unfolding read_entries
read_entries-IsRecent now ago stop [] = tt
read_entries-IsRecent now ago stop (raw ∷ raws) =
    add_entry-IsRecent now ago stop (parse_history_entry raw) (read_entries now ago stop raws)
      (read_entries-IsRecent now ago stop raws)
