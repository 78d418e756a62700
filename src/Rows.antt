-- ===== src/Rows.antt =====
-- app/schemas/clickhouse.py and app/schemas/storage_action.py, the rows and the conversions of
-- app/services/video_detection_service.py, and the payload of the runtime store. A row is dumped to JSON text
-- by the parameter `dumps`.
use ansuman_nsfw_detection_s.Base.{
  ℕ, String, Bool, Option, none, some, List, [], ◌∷◌, map, length, or_else, ◌==◌, if◌then◌else◌,
}
use ansuman_nsfw_detection_s.Base.Int.{ℤ}
use ansuman_nsfw_detection_s.Constants.{classified, value}
use ansuman_nsfw_detection_s.Float.{Double}
use ansuman_nsfw_detection_s.Settings.{Settings}
use ansuman_nsfw_detection_s.Json.{
  Json, Items, Fields, end, field, string, bool, float, array, object,
}
use ansuman_nsfw_detection_s.Policy.{score}
use ansuman_nsfw_detection_s.Models.{
  VideoJob, VideoMetadata, FrameModerationResult, VideoModerationResult, StorageAction, Datetime,
}

pub record VideoNsfwDetectionRow : Type 0 where
  pub video_id : String
  pub job_id : String
  pub publisher_user_id : String
  pub post_id : Option String
  pub canister_id : Option String
  pub source_video_uri : String
  pub source_object_version : String
  pub upload_event_id : Option String
  pub status : String
  pub policy_version : String
  pub prompt_version : String
  pub aggregation_version : String
  pub model_provider : String
  pub model_name : String
  pub model_version : Option String
  pub duration_seconds : Double
  pub frames_extracted : ℕ
  pub frames_processed : ℕ
  pub frame_batch_size : ℤ
  pub final_is_nsfw : Bool
  pub final_score : Double
  pub final_top_category : String
  pub max_overall_severity : ℕ
  pub nsfw_frame_count : ℕ
  pub total_frame_count : ℕ
  pub max_suggestive_severity : ℕ
  pub max_nudity_severity : ℕ
  pub max_porn_severity : ℕ
  pub max_gore_severity : ℕ
  pub max_violence_severity : ℕ
  pub max_self_harm_severity : ℕ
  pub max_hate_or_extremism_severity : ℕ
  pub max_drugs_severity : ℕ
  pub max_unknown_severity : ℕ
  pub max_sexual_minor_content_severity : ℕ
  pub move_required : Bool
  pub move_threshold : Double
  pub storj_move_status : String
  pub legacy_nsfw_ec : String
  pub legacy_nsfw_gore : String
  pub frame_results_json : String
  pub final_response_json : String
  pub created_at : Datetime
  pub updated_at : Datetime
  pub updated_at_replacing : Datetime

pub record StorjMoveResponse : Type 0 where
  pub status_code : ℕ
  pub body : String

pub record StorageActionRow : Type 0 where
  pub action_id : String
  pub video_id : String
  pub job_id : String
  pub publisher_user_id : String
  pub action_type : String
  pub threshold : Double
  pub final_score : Double
  pub status : String
  pub request_url : String
  pub request_body_json : String
  pub response_status : Option ℕ
  pub response_body : String
  pub created_at : Datetime
  pub completed_at : Option Datetime
  pub updated_at_replacing : Datetime

unfoldable pub runtime_nsfw_payload : VideoModerationResult → Fields
runtime_nsfw_payload result = field "video_id" (string result.video_id) (
    field "is_nsfw" (bool result.final_is_nsfw) (
      field "probability" (float result.final_score) (
        field "nsfw_ec" (string result.legacy_nsfw_ec) (
          field "nsfw_gore" (string result.legacy_nsfw_gore) (
            field "policy_version" (string result.policy_version)
              (field "status" (string (value classified)) end))))))

-- A list of values as an array.
abbrev array_of : List Json → Items
array_of [] = Items.nil
array_of (v ∷ vs) = Items.cons v (array_of vs)

abbrev status_of_move : Option StorageAction → String
status_of_move none = "not_required"
status_of_move (some action) = action.status

unfoldable pub to_clickhouse_video_row :
    (Json → String)
    → Datetime
    → VideoJob
    → VideoMetadata
    → List FrameModerationResult
    → VideoModerationResult
    → Settings
    → Option StorageAction
    → VideoNsfwDetectionRow
to_clickhouse_video_row dumps now job metadata frames result settings storage_action = record {
  video_id = job.video_id;
  job_id = job.job_id;
  publisher_user_id = job.publisher_user_id;
  post_id = job.post_id;
  canister_id = job.canister_id;
  source_video_uri = job.source_video_uri;
  source_object_version = job.source_object_version;
  upload_event_id = job.upload_event_id;
  status = value classified;
  policy_version = result.policy_version;
  prompt_version = result.prompt_version;
  aggregation_version = result.aggregation_version;
  model_provider = settings.model_provider;
  model_name = or_else settings.model_name "";
  model_version = settings.model_version;
  duration_seconds = metadata.duration_seconds;
  frames_extracted =
      if metadata.frames_extracted == 0 then length frames else metadata.frames_extracted;
  frames_processed = length frames;
  frame_batch_size = settings.frame_batch_size;
  final_is_nsfw = result.final_is_nsfw;
  final_score = result.final_score;
  final_top_category = result.final_top_category;
  max_overall_severity = result.max_overall_severity;
  nsfw_frame_count = result.nsfw_frame_count;
  total_frame_count = result.total_frame_count;
  max_suggestive_severity = score result.max_category_severities "suggestive";
  max_nudity_severity = score result.max_category_severities "nudity";
  max_porn_severity = score result.max_category_severities "porn";
  max_gore_severity = score result.max_category_severities "gore";
  max_violence_severity = score result.max_category_severities "violence";
  max_self_harm_severity = score result.max_category_severities "self_harm";
  max_hate_or_extremism_severity = score result.max_category_severities "hate_or_extremism";
  max_drugs_severity = score result.max_category_severities "drugs";
  max_unknown_severity = score result.max_category_severities "unknown";
  max_sexual_minor_content_severity = score result.max_category_severities "sexual_minor_content";
  move_required = result.move_required;
  move_threshold = result.move_threshold;
  storj_move_status = status_of_move storage_action;
  legacy_nsfw_ec = result.legacy_nsfw_ec;
  legacy_nsfw_gore = result.legacy_nsfw_gore;
  frame_results_json =
      dumps (array (array_of (map (λ (f : FrameModerationResult). f.raw_response) frames)));
  final_response_json = dumps (object result.final_response);
  created_at = result.created_at;
  updated_at = result.updated_at;
  updated_at_replacing = now;
}

unfoldable pub to_clickhouse_storage_action_row :
    (Json → String) → Datetime → StorageAction → StorageActionRow
to_clickhouse_storage_action_row dumps now action = record {
  action_id = action.action_id;
  video_id = action.video_id;
  job_id = action.job_id;
  publisher_user_id = action.publisher_user_id;
  action_type = action.action_type;
  threshold = action.threshold;
  final_score = action.final_score;
  status = action.status;
  request_url = action.request_url;
  request_body_json = dumps (object action.request_body);
  response_status = action.response_status;
  response_body = or_else action.response_body "";
  created_at = action.created_at;
  completed_at = action.completed_at;
  updated_at_replacing = now;
}
