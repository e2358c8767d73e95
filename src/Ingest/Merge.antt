-- ===== src/Ingest/Merge.antt =====
-- What the upsert statement leaves in a row: the WHERE clause spares a write, and changes nothing.
use esp32_home_display.Prelude.{
  ◌⊎◌, ◌≡◌, refl, sym, true, false, Option, none, some, List, [], ◌∷◌, arith, inl, inr, Bool-cases,
}
use esp32_home_display.Text.{Str, str_eq}
use esp32_home_display.Text.Laws.{eq_of_str_eq}
use esp32_home_display.Float.{Float}
use esp32_home_display.Common.{DataField, ReadingIn}
use esp32_home_display.Database.{Row, after_upsert}
use esp32_home_display.Ingest.{is_field, value_of, coalesce, fills_null, merge_fields, merge_needed}

fills_null-coalesce : (old new : Option Float) → fills_null old new ≡ false → coalesce old new ≡ old
unfolding fills_null coalesce
fills_null-coalesce none none h = refl
fills_null-coalesce none (some v) h = cc
fills_null-coalesce (some v) new h = refl

merge_not_needed :
    (fields : List DataField) (old new : Row) (name : Str)
    → merge_needed fields old new ≡ false
    → is_field fields name ≡ true
    → coalesce (old.values name) (new.values name) ≡ old.values name
unfolding merge_needed is_field
merge_not_needed [] old new name h k = cc
merge_not_needed (f ∷ fields) old new name h k = elim (Bool-cases (str_eq f.name name)) [
  | inl e ↦
      rw (← eq_of_str_eq f.name name e)
        (fills_null-coalesce (old.values f.name) (new.values f.name) (ground arith))
  | inr e ↦ merge_not_needed fields old new name (ground arith) (rw e at k)
]

value_of-no_field :
    (fields : List DataField) (reading : ReadingIn) (name : Str)
    → is_field fields name ≡ false
    → value_of fields reading name ≡ none
unfolding is_field value_of
value_of-no_field [] reading name h = refl
value_of-no_field (f ∷ fields) reading name h =
    ground (arith, value_of-no_field fields reading name)

coalesce-none : (old : Option Float) → coalesce old none ≡ old
unfolding coalesce
coalesce-none none = refl
coalesce-none (some v) = refl

merge_fields-values :
    (fields : List DataField) (reading : ReadingIn) (old new : Row) (name : Str)
    → new.values name ≡ value_of fields reading name
    → merge_fields fields old new name ≡ coalesce (old.values name) (new.values name)
unfolding merge_fields
merge_fields-values fields reading old new name h = elim (Bool-cases (is_field fields name)) [
  | inl e ↦ rw e
  | inr e ↦ rw (e, h, value_of-no_field fields reading name e, coalesce-none)
]

-- Whether or not the WHERE clause holds, every column ends up with its old value, or with the new
-- one where it was NULL.
pub upsert_values :
    (fields : List DataField) (reading : ReadingIn) (old new : Row) (name : Str)
    → new.values name ≡ value_of fields reading name
    → (after_upsert (merge_fields fields) (merge_needed fields) new (some old)).values name
      ≡ coalesce (old.values name) (new.values name)
unfolding after_upsert
upsert_values fields reading old new name h = elim (Bool-cases (merge_needed fields old new)) [
  | inl e ↦ rw e (merge_fields-values fields reading old new name h)
  | inr e ↦ rw e (kept (Bool-cases (is_field fields name)) e)
]
  where
    kept :
        (is_field fields name ≡ true) ⊎ (is_field fields name ≡ false)
        → merge_needed fields old new ≡ false
        → old.values name ≡ coalesce (old.values name) (new.values name)
    kept (inl k) e = sym (merge_not_needed fields old new name e k)
    kept (inr k) e = rw (h, value_of-no_field fields reading name k, coalesce-none)
