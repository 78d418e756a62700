-- ===== src/ClickHouse/Columns.antt =====
-- The values that are inserted stand under the columns of their names.
use ansuman_nsfw_detection_s.Base.{
  ◌≡◌, refl, sym, String, false, List, [], ◌∷◌, map, any, All, str_eq, eq_iff, arith, subst,
}
use ansuman_nsfw_detection_s.Base.Dict.{lookup, string_eq}
use ansuman_nsfw_detection_s.Errors.{ok}
use ansuman_nsfw_detection_s.Effects.{M}
use ansuman_nsfw_detection_s.Json.{Json}
use ansuman_nsfw_detection_s.ClickHouse.{
  Payload, clickhouse_row, columns_of, values_of, all_values, table, insert_model_rows,
}

-- No column stands twice.
abbrev pub Distinct : List String → Type 0
Distinct [] = Unit
Distinct (k ∷ ks) = (any (λ j. str_eq k j) ks ≡ false) × Distinct ks

abbrev pub values : Payload → List Json
values row = map (λ (x : String × Json). x.1) row

values_of-cons :
    (k : String) (v : Json) (row : Payload) (columns : List String)
    → any (λ j. str_eq k j) columns ≡ false
    → values_of columns ((k, v) ∷ row) ≡ values_of columns row
unfolding values_of lookup
values_of-cons k v row [] h = refl
values_of-cons k v row (c ∷ columns) h =
    rw (head_apart, values_of-cons k v row columns (ground (arith, h)))
  where
    head_apart : str_eq k c ≡ false
    head_apart = ground (arith, h)

-- A row's values under its own columns are its values in their order.
values_of-columns :
    (row : Payload) → Distinct (columns_of row) → values_of (columns_of row) row ≡ ok (values row)
unfolding values_of columns_of lookup
values_of-columns [] h = refl
values_of-columns ((k, v) ∷ row) (apart, h) =
    rw ((eq_iff k k).1 refl, values_of-cons k v row (columns_of row) apart, values_of-columns row h)

-- The row has the columns of the list.
abbrev pub Fits : List String → Payload → Type 0
Fits columns row = columns_of row ≡ columns

all_values-columns :
    (columns : List String) (rows : List Payload)
    → Distinct columns
    → All (Fits columns) rows
    → all_values columns rows ≡ ok (map values rows)
unfolding all_values
all_values-columns columns [] h fits = refl
all_values-columns columns (row ∷ rows) h (fit, fits) =
    rw (own, all_values-columns columns rows h fits)
  where
    own : values_of columns row ≡ ok (values row)
    own =
        subst (λ cs. values_of cs row ≡ ok (values row)) fit
          (values_of-columns row (subst Distinct (sym fit) h))

module _ {E : Type 0} (insert_values : String → List (List Json) → List String → M E (Unit {0}))
    (database : String) where
  -- Rows that all have the columns of the first, once `updated_at_replacing` is renamed, and no column twice, are inserted in one call with those columns and each row's own values in their order; nothing raises before the call.
  pub insert_model_rows-aligned :
      {Row : Type 0} (model_dump : Row → Payload) (table_name : String) (row : Row)
      (rows : List Row)
      → Distinct (columns_of (clickhouse_row (model_dump row)))
      → All
          (Fits (columns_of (clickhouse_row (model_dump row))))
          (map (λ r. clickhouse_row (model_dump r)) rows)
      → (e : E)
      → insert_model_rows insert_values database model_dump table_name (row ∷ rows) e
        ≡ insert_values
            (table insert_values database table_name)
            (map values (map (λ r. clickhouse_row (model_dump r)) (row ∷ rows)))
            (columns_of (clickhouse_row (model_dump row)))
            e
  unfolding insert_model_rows
  insert_model_rows-aligned model_dump table_name row rows distinct fits e = rw (
    all_values-columns (columns_of (clickhouse_row (model_dump row)))
        (map (λ r. clickhouse_row (model_dump r)) (row ∷ rows)) distinct (refl, fits),
    insert_model_rows,
  )
