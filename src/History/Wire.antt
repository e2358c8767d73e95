-- ===== src/History/Wire.antt =====
-- The bytes of the commands and of the answers.
use esp32_home_display.Prelude.{
  ℕ, zero, suc, ◌+◌, ◌*◌, ◌<◌, ◌≤◌, ◌≡◌, refl, ap, ◌∙◌, inl, inr, false, ◌&&◌, some, [], ◌∷◌, ◌++◌,
  length, get_elem?, drop, take, ltb, leb, ◌==◌, arith, Bool-cases,
}
use esp32_home_display.History.{
  Bytes, Metadata, DecodedSample, u16_be, u32_be, from_bytes, build_page_command, parse_metadata,
  sample_of, decode_groups, decode_history_payload,
}

u32_round_trip : (n : ℕ) → n < 4_294_967_296 → from_bytes 0 (u32_be n) ≡ n
unfolding from_bytes u32_be
u32_round_trip n h = omega arith

u16_round_trip : (n : ℕ) → n < 65_536 → from_bytes 0 (u16_be n) ≡ n
unfolding from_bytes u16_be
u16_round_trip n h = omega arith

-- A meter's answer to the metadata command, as the comment of `parse_metadata` describes it.
abbrev pub metadata_answer : Metadata → Bytes → Bytes
metadata_answer m extra =
    0x01 ∷ u32_be m.start_epoch
    ++ u32_be m.end_epoch
    ++ u32_be m.end_index
    ++ u16_be m.interval_seconds
    ++ extra

parse_metadata_long :
    (rest : Bytes)
    → 14 ≤ length rest
    → parse_metadata (0x01 ∷ rest)
      ≡ some (record {
        start_epoch = from_bytes 0 (take 4 rest);
        end_epoch = from_bytes 0 (take 4 (drop 4 rest));
        end_index = from_bytes 0 (take 4 (drop 8 rest));
        interval_seconds = from_bytes 0 (take 2 (drop 12 rest));
      })
unfolding parse_metadata
parse_metadata_long rest h = let long : ltb (length rest) 14 ≡ false = ground arith in rw long refl

-- A metadata answer is read back as the metadata that it was made of, whatever bytes follow it.
pub parse_metadata_round_trip :
    (m : Metadata) (extra : Bytes)
    → m.start_epoch < 4_294_967_296
    → m.end_epoch < 4_294_967_296
    → m.end_index < 4_294_967_296
    → m.interval_seconds < 65_536
    → parse_metadata (metadata_answer m extra) ≡ some m
unfolding u32_be u16_be from_bytes
parse_metadata_round_trip m extra h1 h2 h3 h4 =
    let rest =
      u32_be m.start_epoch
      ++ u32_be m.end_epoch
      ++ u32_be m.end_index
      ++ u16_be m.interval_seconds
      ++ extra in
    parse_metadata_long rest (omega arith)
    ∙ ap some (
        same_metadata (u32_round_trip m.start_epoch h1) (u32_round_trip m.end_epoch h2)
          (u32_round_trip m.end_index h3) (u16_round_trip m.interval_seconds h4))
  where
    same_metadata :
        {a b c d : ℕ}
        → a ≡ m.start_epoch
        → b ≡ m.end_epoch
        → c ≡ m.end_index
        → d ≡ m.interval_seconds
        → record { start_epoch = a; end_epoch = b; end_index = c; interval_seconds = d } ≡ m
    same_metadata e1 e2 e3 e4 = rw (e1, e2, e3, e4) refl

page_command_of :
    (index count bank : ℕ) (extra command : Bytes)
    → build_page_command index count bank extra ≡ some command
    → (index < 4_294_967_296)
      × (1 ≤ count)
      × (count < 256)
      × (bank < 256)
      × (command ≡ 0x57 ∷ 0x0f ∷ 0x3c ∷ bank ∷ u32_be index ++ count ∷ extra)
unfolding build_page_command
page_command_of index count bank extra command h = elim (Bool-cases (ltb index 4_294_967_296)) [
  | inr e ↦ absurd (ground arith)
  | inl e ↦ elim (Bool-cases (leb 1 count && ltb count 256)) [
    | inr f ↦ absurd (ground arith)
    | inl f ↦ elim (Bool-cases (ltb bank 256)) [
      | inr g ↦ absurd (ground arith)
      | inl g ↦ (ground arith, ground arith, ground arith, ground arith, ground arith)
    ]
  ]
]

-- A page command that is built carries the bank, the index, the count and the extra bytes at their
-- places, and its numbers are in their ranges.
pub build_page_command_places :
    (index count bank : ℕ) (extra command : Bytes)
    → build_page_command index count bank extra ≡ some command
    → (get_elem? command 3 ≡ some bank)
      × (from_bytes 0 (take 4 (drop 4 command)) ≡ index)
      × (get_elem? command 8 ≡ some count)
      × (drop 9 command ≡ extra)
      × (bank < 256)
      × (1 ≤ count)
      × (count < 256)
unfolding u32_be
build_page_command_places index count bank extra command h =
    let (fits, some_sample, count_fits, bank_fits, built) =
      page_command_of index count bank extra command h in
    rw built (refl, u32_round_trip index fits, refl, refl, bank_fits, some_sample, count_fits)

module _ (m : Metadata) where
  decode_groups_numbered :
      (index : ℕ) (body : Bytes) (n : ℕ) (s : DecodedSample)
      → get_elem? (decode_groups m index body) n ≡ some s
      → (s.index ≡ index + n) × (s.epoch ≡ m.start_epoch + (index + n) * m.interval_seconds)
  unfolding decode_groups sample_of
  decode_groups_numbered index (t1 ∷ h1 ∷ d ∷ t2 ∷ h2 ∷ rest) zero s h =
      (ground arith, ground arith)
  decode_groups_numbered index (t1 ∷ h1 ∷ d ∷ t2 ∷ h2 ∷ rest) (suc zero) s h =
      (ground arith, ground arith)
  decode_groups_numbered index (t1 ∷ h1 ∷ d ∷ t2 ∷ h2 ∷ rest) (suc (suc n)) s h =
      let (same, time) = decode_groups_numbered (index + 2) rest n s h in
      let shift : index + 2 + n ≡ index + suc (suc n) = omega arith in
      (same ∙ shift, time ∙ ap (λ k. m.start_epoch + k * m.interval_seconds) shift)
  decode_groups_numbered index [] n s h = absurd (ground arith)
  decode_groups_numbered index (a ∷ []) n s h = absurd (ground arith)
  decode_groups_numbered index (a ∷ b ∷ []) n s h = absurd (ground arith)
  decode_groups_numbered index (a ∷ b ∷ c ∷ []) n s h = absurd (ground arith)
  decode_groups_numbered index (a ∷ b ∷ c ∷ d ∷ []) n s h = absurd (ground arith)

-- The samples of a page are numbered from the index of the page on, and a sample's time follows from
-- its number.
pub decode_history_payload_numbered :
    (payload : Bytes) (start_index : ℕ) (m : Metadata) (n : ℕ) (s : DecodedSample)
    → get_elem? (decode_history_payload payload start_index m) n ≡ some s
    → (s.index ≡ start_index + n)
      × (s.epoch ≡ m.start_epoch + (start_index + n) * m.interval_seconds)
unfolding decode_history_payload
decode_history_payload_numbered [] start_index m n s h = absurd (ground arith)
decode_history_payload_numbered (first ∷ body) start_index m n s h =
    elim (Bool-cases (first == 0x01)) [
      | inl e ↦ decode_groups_numbered m start_index body n s (rw e at h)
      | inr e ↦ absurd (ground arith)
    ]
