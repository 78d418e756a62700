-- ===== src/Postgres/Results.antt =====
-- app/repositories/postgres/video_result_repository.py: final results as rows, and back.
pub mod RoundTrip
use ansuman_nsfw_detection_s.Base.{
  ℕ, String, Bool, true, false, not, ◌&&◌, Option, none, some, List, [], ◌∷◌, str_eq, ◌==◌,
  if◌then◌else◌,
}
use ansuman_nsfw_detection_s.Base.Int.{ℤ, pos, negsuc}
use ansuman_nsfw_detection_s.Float.{FloatOps}
use ansuman_nsfw_detection_s.Errors.{Outcome, ok, raised, other, ◌>>=◌}
use ansuman_nsfw_detection_s.Effects
use ansuman_nsfw_detection_s.Effects.{M, lift, pure}
use ansuman_nsfw_detection_s.Json.{
  Json, null, bool, int, float, string, array, object, Items, nil, cons, Fields, end, field,
  get_field, is_truthy,
}
use ansuman_nsfw_detection_s.Policy.{Scores}
use ansuman_nsfw_detection_s.Models.{VideoModerationResult}
use ansuman_nsfw_detection_s.Postgres.Database.{ResultRow, insert_result, Session}

unfoldable pub video_result_to_row : VideoModerationResult → ResultRow
video_result_to_row result = record {
  job_id = result.job_id;
  video_id = result.video_id;
  policy_version = result.policy_version;
  prompt_version = result.prompt_version;
  aggregation_version = result.aggregation_version;
  final_is_nsfw = result.final_is_nsfw;
  final_score = result.final_score;
  final_top_category = result.final_top_category;
  max_overall_severity = result.max_overall_severity;
  nsfw_frame_count = result.nsfw_frame_count;
  total_frame_count = result.total_frame_count;
  move_required = result.move_required;
  move_threshold = result.move_threshold;
  legacy_nsfw_ec = result.legacy_nsfw_ec;
  legacy_nsfw_gore = result.legacy_nsfw_gore;
  final_response = result.final_response;
  created_at = result.created_at;
  updated_at = result.updated_at;
}

-- `int(severity)` of a JSON integer; `to_int` reads the other values. A severity below 0, which is
-- never written, counts as an error.
module _ (ops : FloatOps) (to_int : Json → Outcome ℤ) where
  abbrev natural : Outcome ℤ → Outcome ℕ
  natural (ok (pos n)) = ok n
  natural (ok (negsuc n)) = raised (other "ValueError" "negative severity")
  natural (raised x) = raised x

  unfoldable pub severity_of_json : Json → Outcome ℕ
  severity_of_json (int z) = natural (ok z)
  severity_of_json v = natural (to_int v)

  -- `{str(category): int(severity) for ... in raw.items()}`
  unfoldable pub severities_of_fields : Fields → Outcome Scores
  unfolding severity_of_json
  severities_of_fields end = ok []
  severities_of_fields (field category v rest) = do
    severity ← severity_of_json v
    severities ← severities_of_fields rest
    ok ((category, severity) ∷ severities)

  -- What stands under "max_category_severities": a false value counts as {}, and only a dict has items.
  abbrev severities_of : Option Json → Outcome Scores
  severities_of none = ok []
  severities_of (some (object fields)) = severities_of_fields fields
  severities_of (some v) =
      if is_truthy ops v then raised (other "AttributeError" "items") else ok []

  unfoldable pub row_to_video_result : ResultRow → Outcome VideoModerationResult
  unfolding severities_of_fields is_truthy
  row_to_video_result row = do
    severities ← severities_of (get_field "max_category_severities" row.final_response)
    ok (record {
      job_id = row.job_id;
      video_id = row.video_id;
      policy_version = row.policy_version;
      prompt_version = row.prompt_version;
      aggregation_version = row.aggregation_version;
      final_is_nsfw = row.final_is_nsfw;
      final_score = row.final_score;
      final_top_category = row.final_top_category;
      max_overall_severity = row.max_overall_severity;
      nsfw_frame_count = row.nsfw_frame_count;
      total_frame_count = row.total_frame_count;
      move_required = row.move_required;
      move_threshold = row.move_threshold;
      max_category_severities = severities;
      legacy_nsfw_ec = row.legacy_nsfw_ec;
      legacy_nsfw_gore = row.legacy_nsfw_gore;
      final_response = row.final_response;
      created_at = row.created_at;
      updated_at = row.updated_at;
    })

  module _ {E : Type 0} (session : Session E) where
    abbrev result_of_row : Option ResultRow → M E (Option VideoModerationResult)
    result_of_row none e = (ok none, e)
    result_of_row (some row) e =
        Effects.after (lift (row_to_video_result row) e) (λ r. pure (some r))

    unfoldable pub get_by_job_id : String → M E (Option VideoModerationResult)
    unfolding row_to_video_result
    get_by_job_id job_id e = Effects.after (session.first_result job_id e) result_of_row

    unfoldable pub get_latest_by_video_id : String → M E (Option VideoModerationResult)
    unfolding row_to_video_result
    get_latest_by_video_id video_id e =
        Effects.after (session.latest_result video_id e) result_of_row

unfoldable pub insert_final_result :
    {E : Type 0} → Session E → VideoModerationResult → M E (Unit {0})
unfolding video_result_to_row
insert_final_result session result = session.execute (insert_result (video_result_to_row result))
