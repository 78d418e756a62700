-- ===== src/Tests/Storage.antt =====
-- The theorems at concrete inputs: bans, inserted columns, and the tables of PostgreSQL.
use ansuman_nsfw_detection_s.Base.{
  inl, inr, is_some, ◌||◌, ◌≡◌, refl, String, true, none, List, [], ◌∷◌, ◌++◌, map, any,
  if◌then◌else◌,
}
use ansuman_nsfw_detection_s.Base.Int.{ℤ}
use ansuman_nsfw_detection_s.Base.Dict.{lookup, insert, string_eq}
use ansuman_nsfw_detection_s.Errors.{Outcome, ok, raised, other}
use ansuman_nsfw_detection_s.Effects.{M}
use ansuman_nsfw_detection_s.Json.{Json, string}
use ansuman_nsfw_detection_s.Models.{VideoJob}
use ansuman_nsfw_detection_s.Schemas.{VideoBanRequest}
use ansuman_nsfw_detection_s.Legacy.{LegacyNsfwAggRow}
use ansuman_nsfw_detection_s.Queue.Memory.{new_job}
use ansuman_nsfw_detection_s.Ban.{ExcludedVideoRow, ban_video}
use ansuman_nsfw_detection_s.Ban.Order.{Tables, Ending, ban_video-Ending}
use ansuman_nsfw_detection_s.ClickHouse.{
  Payload, clickhouse_row, columns_of, table, insert_model_rows,
}
use ansuman_nsfw_detection_s.ClickHouse.Columns.{values, insert_model_rows-aligned, Distinct, Fits}
use ansuman_nsfw_detection_s.Postgres.Database.{
  JobRow, Statement, insert_job, insert_job_unless_conflict, update_job, insert_frames,
  insert_result, insert_action, Session,
}
use ansuman_nsfw_detection_s.Postgres.Jobs.{start_processing}
use ansuman_nsfw_detection_s.Postgres.Jobs.Started.{
  Table, has_id, has_key, update_rows, started_rows, start_processing-rows,
}
use ansuman_nsfw_detection_s.Models.{VideoModerationResult}
use ansuman_nsfw_detection_s.Aggregation.{
  aggregate, verdict, select_top_category, candidates, best_frame, beats, risk_rank, index_of,
  min_by_rank,
}
use ansuman_nsfw_detection_s.Postgres.Results.{video_result_to_row, row_to_video_result}
use ansuman_nsfw_detection_s.Postgres.Results.RoundTrip.{row_to-to_row}
use ansuman_nsfw_detection_s.Tests.Fixtures.{
  settings, thousandths, request, porn_result, gore_result,
}

-- The rows of the two tables, and an exclusion that fails.
abbrev Banned : Type 0
Banned = List ExcludedVideoRow × List LegacyNsfwAggRow

abbrev insert_excluded : String → List ExcludedVideoRow → M Banned (Unit {0})
insert_excluded t rows e = (raised (other "ClickHouseError" "down"), e)

abbrev insert_legacy : String → List LegacyNsfwAggRow → M Banned (Unit {0})
insert_legacy t rows (excluded, legacy) = (ok tt, (excluded, legacy ++ rows))

ban_tables : Tables settings insert_excluded insert_legacy
ban_tables = record {
  excluded = λ e. e.0;
  legacy = λ e. e.1;
  excluded-insert = λ rows e. inr ((_, refl), refl);
  legacy_kept = λ rows e. refl;
  legacy-insert = λ rows e. inl refl;
  excluded_kept = λ rows e. refl;
}

abbrev ban_request : VideoBanRequest
ban_request = record {
  publisher_user_id = "user";
  post_id = "post";
  canister_id = "canister";
  reason = "report";
  source = "moderator";
  moderator_id = none;
  trace_id = none;
}

ban_video-Ending_example :
    Ending thousandths settings insert_excluded insert_legacy ban_tables "v" ban_request 3
      ([], [])
      (ban_video thousandths settings insert_excluded insert_legacy "v" ban_request 3 ([], []))
ban_video-Ending_example =
    ban_video-Ending thousandths settings insert_excluded insert_legacy ban_tables "v" ban_request 3
      ([], [])

-- Two rows with a column to be renamed.
abbrev first_row : Payload
first_row = ("video_id", string "v") ∷ ("updated_at_replacing", string "t") ∷ []

abbrev second_row : Payload
second_row = ("video_id", string "w") ∷ ("updated_at_replacing", string "u") ∷ []

-- What was inserted: the table, the values and the columns.
abbrev Inserted : Type 0
Inserted = List (String × List (List Json) × List String)

abbrev insert_values : String → List (List Json) → List String → M Inserted (Unit {0})
insert_values t rows columns e = (ok tt, (t, rows, columns) ∷ e)

renamed_columns : Distinct (columns_of (clickhouse_row first_row))
unfolding columns_of clickhouse_row lookup insert
renamed_columns = (refl, (refl, tt))

same_columns : Fits (columns_of (clickhouse_row first_row)) (clickhouse_row second_row)
unfolding columns_of clickhouse_row lookup insert
same_columns = refl

insert_model_rows-aligned_example :
    insert_model_rows insert_values "db" (λ r. r) "videos" (first_row ∷ second_row ∷ []) []
    ≡ insert_values
        (table insert_values "db" "videos")
        (map values (map (λ r. clickhouse_row r) (first_row ∷ second_row ∷ [])))
        (columns_of (clickhouse_row first_row))
        []
insert_model_rows-aligned_example =
    insert_model_rows-aligned insert_values "db" (λ r. r) "videos" first_row (second_row ∷ [])
      renamed_columns (same_columns, tt) []

-- A table of jobs at a time that stands still.
abbrev inserted : JobRow → List JobRow → List JobRow
inserted r rows = if any (λ s. has_id r.job_id s || has_key r s) rows then rows else rows ++ r ∷ []

abbrev executed : Statement → M (List JobRow) (Unit {0})
executed (insert_job r) rows = (ok tt, rows ++ r ∷ [])
executed (insert_job_unless_conflict r) rows = (ok tt, inserted r rows)
executed (update_job id u) rows = (ok tt, update_rows 7 id u rows)
executed (insert_frames frames) rows = (ok tt, rows)
executed (insert_result result) rows = (ok tt, rows)
executed (insert_action action) rows = (ok tt, rows)

abbrev session : Session (List JobRow)
session = record {
  execute = executed;
  first_job = λ id rows. (ok none, rows);
  latest_job = λ id rows. (ok none, rows);
  first_result = λ id rows. (ok none, rows);
  latest_result = λ id rows. (ok none, rows);
  transaction = λ m. m;
}

job_table : Table session
job_table = record {
  rows = λ e. e;
  now = λ e. 7;
  inserted = inserted;
  updated = λ id u rows. update_rows 7 id u rows;
  insert_lem = λ r e h h'. refl;
  rows-inserted = λ r e. refl;
  now-inserted = λ r e. refl;
  update_lem = λ id u e. refl;
  rows-updated = λ id u e. refl;
  transaction_lem = λ m e e' h. h;
}

abbrev job : VideoJob
job = new_job request 1

has_dates : (is_some job.created_at ≡ true) × (is_some job.updated_at ≡ true)
unfolding new_job
has_dates = (refl, refl)

start_processing-rows_example :
    ((start_processing session job []).0 ≡ ok tt)
    × (job_table.rows (start_processing session job []).1
        ≡ started_rows job (job_table.now []) (job_table.rows []))
start_processing-rows_example =
    start_processing-rows session job_table job [] has_dates.0 has_dates.1

-- A verdict on two frames; `int` reads nothing but integers.
abbrev two_frames : VideoModerationResult
two_frames =
    verdict thousandths settings "job" "video" "p1" 7 (porn_result ∷ gore_result ∷ []) "porn"

abbrev to_int : Json → Outcome ℤ
to_int v = raised (other "TypeError" "int")

two_frames-aggregate :
    aggregate thousandths settings "job" "video" "p1" 7 (porn_result ∷ gore_result ∷ [])
    ≡ ok two_frames
unfolding aggregate select_top_category candidates best_frame beats risk_rank index_of min_by_rank
two_frames-aggregate = refl

row_to-to_row_example :
    row_to_video_result thousandths to_int (video_result_to_row two_frames) ≡ ok two_frames
row_to-to_row_example =
    row_to-to_row thousandths to_int settings "job" "video" "p1" 7 (porn_result ∷ gore_result ∷ [])
      two_frames two_frames-aggregate
