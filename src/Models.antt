-- ===== src/Models.antt =====
-- app/models: the internal records. A datetime is a number of microseconds since `datetime.min` in
-- UTC, so that later datetimes are larger numbers.
use ansuman_nsfw_detection_s.Base.{ℕ, String, Bool, Option}
use ansuman_nsfw_detection_s.Base.Int.{ℤ}
use ansuman_nsfw_detection_s.Float.{Double}
use ansuman_nsfw_detection_s.Json.{Json, Fields}
use ansuman_nsfw_detection_s.Constants.{VideoJobStatus}
use ansuman_nsfw_detection_s.Policy.{Scores}

abbrev pub Datetime : Type 0
Datetime = ℕ

pub record FrameModerationResult : Type 0 where
  pub frame_index : ℕ
  pub frame_timestamp_seconds : Double
  pub top_category : String
  pub is_nsfw : Bool
  pub overall_severity : ℕ
  pub categories : Scores
  pub reason : String
  pub raw_response : Json

pub record VideoModerationResult : Type 0 where
  pub job_id : String
  pub video_id : String
  pub policy_version : String
  pub prompt_version : String
  pub aggregation_version : String
  pub final_is_nsfw : Bool
  pub final_score : Double
  pub final_top_category : String
  pub max_overall_severity : ℕ
  pub nsfw_frame_count : ℕ
  pub total_frame_count : ℕ
  pub move_required : Bool
  pub move_threshold : Double
  pub max_category_severities : Scores
  pub legacy_nsfw_ec : String
  pub legacy_nsfw_gore : String
  pub final_response : Fields
  pub created_at : Datetime
  pub updated_at : Datetime

-- `attempts` counts up from 0, so it is a natural number.
pub record VideoJob : Type 0 where
  pub job_id : String
  pub video_id : String
  pub source_object_version : String
  pub policy_version : String
  pub status : VideoJobStatus
  pub publisher_user_id : String
  pub post_id : Option String
  pub canister_id : Option String
  pub source_video_uri : String
  pub upload_event_id : Option String
  pub trace_id : Option String
  pub attempts : ℕ
  pub last_error_code : Option String
  pub last_error_message : Option String
  pub created_at : Option Datetime
  pub updated_at : Option Datetime
  pub started_at : Option Datetime
  pub finished_at : Option Datetime

pub record VideoMetadata : Type 0 where
  pub job_id : String
  pub video_id : String
  pub duration_seconds : Double
  pub width : Option ℤ
  pub height : Option ℤ
  pub fps : Option Double
  pub codec_name : Option String
  pub has_video_stream : Bool
  pub frames_extracted : ℕ

pub record StorageAction : Type 0 where
  pub action_id : String
  pub job_id : String
  pub video_id : String
  pub publisher_user_id : String
  pub action_type : String
  pub threshold : Double
  pub final_score : Double
  pub request_url : String
  pub request_body : Fields
  pub response_status : Option ℕ
  pub response_body : Option String
  pub status : String
  pub created_at : Datetime
  pub completed_at : Option Datetime
