-- ===== src/History/Plan.antt =====
-- tools/switchbot_history_probe.py: the plan of the pages to read, and the samples that they give.
use Prim.Native.Nat.{min, max}
use esp32_home_display.Prelude.{
  ℕ, zero, suc, ◌+◌, ◌-◌, ◌*◌, Bool, true, false, ◌&&◌, ◌||◌, not, Option, none, some, List, [],
  ◌∷◌, ◌++◌, ℤ, pos, ltb, leb, leb_ℤ, ltb_ℤ, if◌then◌else◌, is_one_of,
}
use esp32_home_display.History.{
  Bytes, Metadata, PageRequest, DecodedSample, decode_history_payload, clamp, epoch_to_index,
}

-- The options that the plan reads.
pub record Args : Type 0 where
  pub start_index : Option ℤ
  pub end_index : Option ℤ
  pub start_epoch : Option ℤ
  pub end_epoch : Option ℤ
  pub pages : ℕ
  pub page_count : ℕ

-- An exception, a loop that has not ended within the fuel, or the plan.
pub data Plan : Type 0 where
  raises : Plan
  unfinished : Plan
  planned : List PageRequest → Plan

abbrev pub add_page : PageRequest → Plan → Plan
add_page request (planned requests) = planned (request ∷ requests)
add_page request raises = raises
add_page request unfinished = unfinished

-- `while index < end_index`
unfoldable pub page_loop : ℕ → ℕ → ℕ → ℕ → Plan
page_loop zero count index end_index = unfinished
page_loop (suc fuel) count index end_index =
    let rest = page_loop fuel count (index + count) end_index in
    if ltb index end_index
    then add_page (record { index = index; count = count }) rest
    else planned []

-- `for _ in range(args.pages)`, with its break
unfoldable pub page_range : ℕ → ℕ → ℕ → ℕ → List PageRequest
page_range zero count index end_index = []
page_range (suc pages) count index end_index =
    let rest = page_range pages count (index + count) end_index in
    if leb end_index index then [] else record { index = index; count = count } ∷ rest

abbrev pub is_given : Option ℤ → Bool
is_given none = false
is_given (some n) = true

-- An end of the range before it is clamped: the time that is given, else the index, else a default.
-- The times are clamped when they are turned into indexes.
unfoldable pub bound_of : Metadata → Bool → Option ℤ → Option ℤ → ℕ → Option ℕ
unfolding epoch_to_index
bound_of metadata round_up (some epoch) index default = epoch_to_index metadata epoch round_up
bound_of metadata round_up none (some index) default = some (clamp metadata.end_index index)
bound_of metadata round_up none none default = some default

unfoldable pub plan_range : ℕ → Metadata → ℕ → Option ℕ → Option ℕ → Plan
unfolding page_loop
plan_range fuel metadata count (some start) (some end) =
    let start_index = min metadata.end_index start in
    page_loop fuel count start_index (max start_index (min metadata.end_index end))
plan_range fuel metadata count none end = raises
plan_range fuel metadata count (some start) none = raises

-- The page to start with when no end and no time is given.
unfoldable pub first_page : Args → Metadata → ℕ
first_page args metadata = elim args.start_index [
  | none ↦ metadata.end_index - args.pages * args.page_count
  | some index ↦ clamp metadata.end_index index
]

unfoldable pub build_page_plan : ℕ → Args → Metadata → Plan
unfolding bound_of plan_range page_range first_page
build_page_plan fuel args metadata =
    if is_given args.start_index && is_given args.start_epoch
    then raises
    else if is_given args.end_index && is_given args.end_epoch
    then raises
    else if is_given args.start_epoch || is_given args.end_epoch || is_given args.end_index
    then plan_range fuel metadata args.page_count
        (bound_of metadata false args.start_epoch args.start_index 0)
        (bound_of metadata true args.end_epoch args.end_index metadata.end_index)
    else planned
        (page_range args.pages args.page_count (first_page args metadata) metadata.end_index)

-- The loop over the candidates: one that fits four bytes is kept once.
unfoldable pub distinct_indexes : List ℕ → List ℕ → List ℕ
distinct_indexes indexes [] = indexes
distinct_indexes indexes (index ∷ rest) =
    distinct_indexes
      (if leb index 4_294_967_295 && not (is_one_of index indexes)
        then indexes ++ index ∷ []
        else indexes)
      rest

unfoldable pub boundary_probe_indexes : Metadata → ℕ → List ℕ
unfolding distinct_indexes
boundary_probe_indexes metadata page_count =
    let last = metadata.end_index in
    distinct_indexes []
      (if leb page_count last then 0 ∷ (last - page_count) ∷ last ∷ [] else 0 ∷ last ∷ [])

unfoldable pub latest_full_page_index : Metadata → ℕ → Option ℕ
latest_full_page_index metadata page_count =
    if ltb metadata.end_index page_count then none else some (metadata.end_index - page_count)

-- The samples of the requested range, for the answers to the pages in turn.
unfoldable pub decode_pages : Metadata → List (PageRequest × Bytes) → List DecodedSample
unfolding decode_history_payload
decode_pages metadata [] = []
decode_pages metadata ((request, response) ∷ rest) =
    decode_history_payload response request.index metadata ++ decode_pages metadata rest

unfoldable pub trimmed : ℤ → ℤ → List DecodedSample → List DecodedSample
trimmed start_epoch end_epoch [] = []
trimmed start_epoch end_epoch (s ∷ ss) =
    let rest = trimmed start_epoch end_epoch ss in
    if leb_ℤ start_epoch (pos s.epoch) && ltb_ℤ (pos s.epoch) end_epoch then s ∷ rest else rest
