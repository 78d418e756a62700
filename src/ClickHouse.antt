-- ===== src/ClickHouse.antt =====
-- app/repositories/clickhouse: how rows are inserted. The client's `insert` is a parameter, and so is
-- `model_dump` of a row, a dict of its columns.
pub mod Columns
use Prim.Native.String.{◌++◌ as text_append}
use ansuman_nsfw_detection_s.Base.{
  String, Bool, not, Option, none, some, List, [], ◌∷◌, map, select, str_eq,
}
use ansuman_nsfw_detection_s.Base.Dict.{Dict, lookup, insert, string_eq}
use ansuman_nsfw_detection_s.Errors.{Outcome, ok, raised, other, ◌>>=◌}
use ansuman_nsfw_detection_s.Effects
use ansuman_nsfw_detection_s.Effects.{M, lift}
use ansuman_nsfw_detection_s.Json.{Json}

abbrev pub Payload : Type 0
Payload = Dict String Json

-- payload.pop(key) without its value
abbrev without : String → Payload → Payload
without key payload = select (λ (x : String × Json). not (str_eq x.0 key)) payload

abbrev renamed : Option Json → Payload → Payload
renamed none payload = payload
renamed (some v) payload = insert "_updated_at" v (without "updated_at_replacing" payload)

-- `_clickhouse_row`
unfoldable pub clickhouse_row : Payload → Payload
clickhouse_row payload = renamed (lookup "updated_at_replacing" payload) payload

unfoldable pub columns_of : Payload → List String
columns_of payload = map (λ (x : String × Json). x.0) payload

-- row[column]
abbrev pub cell : String → Option Json → Outcome Json
cell column none = raised (other "KeyError" column)
cell column (some v) = ok v

-- `[row[column] for column in columns]`
unfoldable pub values_of : List String → Payload → Outcome (List Json)
values_of [] row = ok []
values_of (column ∷ columns) row = do
  v ← cell column (lookup column row)
  vs ← values_of columns row
  ok (v ∷ vs)

unfoldable pub all_values : List String → List Payload → Outcome (List (List Json))
unfolding values_of
all_values columns [] = ok []
all_values columns (row ∷ rows) = do
  vs ← values_of columns row
  vss ← all_values columns rows
  ok (vs ∷ vss)

module _ {E : Type 0} (insert_values : String → List (List Json) → List String → M E (Unit {0}))
    (database : String) where
  unfoldable pub table : String → String
  table table_name = text_append database (text_append "." table_name)

  abbrev insert_first : String → Payload → List Payload → M E (Unit {0})
  insert_first table_name row rows e =
      let columns = columns_of row in
      Effects.after (lift (all_values columns (row ∷ rows)) e)
        (λ values. insert_values (table table_name) values columns)

  abbrev insert_payload : String → List Payload → M E (Unit {0})
  insert_payload table_name [] e = (ok tt, e)
  insert_payload table_name (row ∷ rows) e = insert_first table_name row rows e

  -- `ClickHouseRepository.insert_model_rows`
  unfoldable pub insert_model_rows :
      {Row : Type 0} → (Row → Payload) → String → List Row → M E (Unit {0})
  insert_model_rows model_dump table_name rows =
      insert_payload table_name (map (λ row. clickhouse_row (model_dump row)) rows)
