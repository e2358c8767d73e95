-- ===== src/Bulk/Tests.antt =====
-- A bulk upload of five items: a new reading, one that is no object, one without a timestamp, the
-- new reading again, and a conflicting one.
use esp32_home_display.Prelude.{ℕ, ◌≡◌, Bool, true, false, Option, none, some, List, [], ◌∷◌, pos}
use esp32_home_display.Text.{codes}
use esp32_home_display.Float.{Float, finite}
use esp32_home_display.Common.{Datetime}
use esp32_home_display.Database.{Sensor, switchbot_type}
use esp32_home_display.Database.Memory.{Tables, memory_session}
use esp32_home_display.Bulk.{bulk_result_counts}
use esp32_home_display.Bulk.Counts.{IsTallied, bulk_result_counts-IsTallied}
use esp32_home_display.Bulk.Errors.{accepted, ingest_all, bulk_database}

data Item : Type 0 where
  text : Item
  untimed : Item
  sample : ℕ → ℕ → Item

abbrev is_object : Item → Bool
is_object text = false
is_object untimed = true
is_object (sample when degrees) = true

abbrev parse : Item → Option (Datetime × Float × Float)
parse text = none
parse untimed = none
parse (sample when degrees) =
    some (record { instant = when; tzinfo = some (pos 0) }, finite (pos degrees), finite (pos 40))

abbrev porch : Sensor
porch = record {
  mac = codes "AA:BB:CC:DD:EE:02";
  id = 1;
  name = codes "Porch";
  type = switchbot_type;
}

abbrev tables : Tables
tables = record { sensors = porch ∷ []; readings = [] }

abbrev items : List Item
items = sample 7 21 ∷ text ∷ untimed ∷ sample 7 21 ∷ sample 7 22 ∷ []

bulk_result_counts-IsTallied_example :
    IsTallied 20 5 5 (bulk_result_counts memory_session is_object parse 20 porch items tables).0
bulk_result_counts-IsTallied_example =
    bulk_result_counts-IsTallied memory_session is_object parse 20 porch items tables

bulk_database_example :
    (bulk_result_counts memory_session is_object parse 20 porch items tables).1
    ≡ ingest_all memory_session is_object parse porch
        (accepted memory_session is_object parse porch items tables)
        tables
bulk_database_example = bulk_database memory_session is_object parse porch 20 items tables
