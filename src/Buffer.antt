-- ===== src/Buffer.antt =====
-- app/repositories/kvrocks/clickhouse_buffer_repository.py, the buffers in memory, and
-- app/services/clickhouse_flush_service.py, which empties them into ClickHouse. A payload is the object
-- that was dumped to JSON. The checks of the rows (pydantic) and the inserts (the ClickHouse client) are
-- parameters; an insert acts on an environment `E`.
pub mod Flushing
pub mod Redis
use ansuman_nsfw_detection_s.Base.{
  ℕ, String, Bool, Option, List, [], ◌∷◌, ◌++◌, take, drop, length, or_else, if◌then◌else◌,
}
use ansuman_nsfw_detection_s.Base.Dict.{Dict, lookup, insert, string_eq}
use ansuman_nsfw_detection_s.Errors.{Outcome, ok, raised, ◌>>=◌}
use ansuman_nsfw_detection_s.Json.{Fields}
use ansuman_nsfw_detection_s.Legacy.{LegacyNsfwAggRow}
use ansuman_nsfw_detection_s.Settings.{Settings}

abbrev pub Buffers : Type 0
Buffers = Dict String (List Fields)

-- `self._items.get(key, [])`
unfoldable pub contents : String → Buffers → List Fields
contents key b = or_else (lookup key b) []

unfoldable pub push_json : String → Fields → Buffers → Buffers
unfolding contents
push_json key payload b = insert key (contents key b ++ payload ∷ []) b

unfoldable pub read_batch : String → ℕ → Buffers → List Fields
unfolding contents
read_batch key limit b = take limit (contents key b)

unfoldable pub trim_batch : String → ℕ → Buffers → Buffers
unfolding contents
trim_batch key count b = insert key (drop count (contents key b)) b

-- `[Row.model_validate(row) for row in rows]`
unfoldable pub parse_rows :
    {Row : Type 0} → (Fields → Outcome Row) → List Fields → Outcome (List Row)
parse_rows validate [] = ok []
parse_rows validate (row ∷ rows) = do
  parsed ← validate row
  rest ← parse_rows validate rows
  ok (parsed ∷ rest)

module _ {E Row : Type 0} (validate : Fields → Outcome Row)
    (insert_rows : String → List Row → E → Outcome (Unit {0}) × E) where
  abbrev pub trimmed :
      String → ℕ → Outcome (Unit {0}) × E → Buffers → Outcome (Unit {0}) × Buffers × E
  trimmed key count (ok _, e) b = (ok tt, trim_batch key count b, e)
  trimmed key count (raised x, e) b = (raised x, b, e)

  abbrev pub inserted :
      String → String → ℕ → Outcome (List Row) → Buffers → E → Outcome (Unit {0}) × Buffers × E
  inserted key table count (ok parsed) b e = trimmed key count (insert_rows table parsed e) b
  inserted key table count (raised x) b e = (raised x, b, e)

  abbrev pub flushed :
      String → String → List Fields → Buffers → E → Outcome (Unit {0}) × Buffers × E
  flushed key table [] b e = (ok tt, b, e)
  flushed key table (row ∷ rows) b e =
      inserted key table (length (row ∷ rows)) (parse_rows validate (row ∷ rows)) b e

  -- `_flush_video_results`, `_flush_legacy_rows` and `_flush_storage_actions`: one buffer into one table.
  unfoldable pub flush_table : String → String → ℕ → Buffers → E → Outcome (Unit {0}) × Buffers × E
  unfolding parse_rows read_batch trim_batch
  flush_table key table batch_size b e = flushed key table (read_batch key batch_size b) b e

-- The checks and inserts of the three kinds of rows.
pub record Tables (E VideoRow ActionRow : Type 0) : Type 0 where
  pub validate_video_row : Fields → Outcome VideoRow
  pub validate_legacy_row : Fields → Outcome LegacyNsfwAggRow
  pub validate_action_row : Fields → Outcome ActionRow
  pub insert_video_rows : String → List VideoRow → E → Outcome (Unit {0}) × E
  pub insert_legacy_rows : String → List LegacyNsfwAggRow → E → Outcome (Unit {0}) × E
  pub insert_action_rows : String → List ActionRow → E → Outcome (Unit {0}) × E

abbrev pub then_flush :
    {E : Type 0}
    → Outcome (Unit {0}) × Buffers × E
    → (Buffers → E → Outcome (Unit {0}) × Buffers × E)
    → Outcome (Unit {0}) × Buffers × E
then_flush (ok _, b, e) k = k b e
then_flush (raised x, b, e) k = (raised x, b, e)

-- `flush_once`: the three buffers in turn, each only if the one before went well.
unfoldable pub flush_once :
    {E VideoRow ActionRow : Type 0}
    → Settings
    → Tables E VideoRow ActionRow
    → ℕ
    → Buffers
    → E
    → Outcome (Unit {0}) × Buffers × E
unfolding flush_table
flush_once settings t n b e =
    then_flush
      (flush_table t.validate_video_row t.insert_video_rows
        settings.clickhouse_buffer_video_results_key settings.clickhouse_nsfw_table n b e)
      (λ b' e'.
        then_flush
          (flush_table t.validate_legacy_row t.insert_legacy_rows
            settings.clickhouse_buffer_legacy_key settings.clickhouse_nsfw_agg_table n b' e')
          (λ b'' e''.
            flush_table t.validate_action_row t.insert_action_rows
              settings.clickhouse_buffer_storage_actions_key
              settings.clickhouse_storage_actions_table n b'' e''))
