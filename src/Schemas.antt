-- ===== src/Schemas.antt =====
-- app/schemas/video.py: the bodies of the video requests and responses.
use ansuman_nsfw_detection_s.Base.{ℕ, String, Bool, Option}
use ansuman_nsfw_detection_s.Float.{Double}
use ansuman_nsfw_detection_s.Json.{Fields}
use ansuman_nsfw_detection_s.Constants.{VideoJobStatus}
use ansuman_nsfw_detection_s.Policy.{Scores}
use ansuman_nsfw_detection_s.Models.{Datetime}

pub record VideoDetectRequest : Type 0 where
  pub job_id : String
  pub video_id : String
  pub publisher_user_id : String
  pub source_video_uri : String
  pub post_id : Option String
  pub canister_id : Option String
  pub source_object_version : String
  pub upload_event_id : Option String
  pub upload_created_at : Option Datetime
  pub policy_version : String
  pub trace_id : Option String

pub record VideoDetectResponse : Type 0 where
  pub job_id : String
  pub video_id : String
  pub status : VideoJobStatus
  pub trace_id : Option String

pub record VideoFinalResultResponse : Type 0 where
  pub policy_version : String
  pub prompt_version : String
  pub aggregation_version : String
  pub final_is_nsfw : Bool
  pub final_score : Double
  pub final_top_category : String
  pub max_overall_severity : ℕ
  pub nsfw_frame_count : ℕ
  pub total_frame_count : ℕ
  pub move_required : Bool
  pub move_threshold : Double
  pub max_category_severities : Scores
  pub legacy_nsfw_ec : String
  pub legacy_nsfw_gore : String
  pub final_response : Fields

pub record VideoStatusResponse : Type 0 where
  pub job_id : String
  pub video_id : String
  pub status : VideoJobStatus
  pub trace_id : Option String
  pub attempts : ℕ
  pub last_error_code : Option String
  pub last_error_message : Option String
  pub final_result : Option VideoFinalResultResponse

pub record VideoBanRequest : Type 0 where
  pub publisher_user_id : String
  pub post_id : String
  pub canister_id : String
  pub reason : String
  pub source : String
  pub moderator_id : Option String
  pub trace_id : Option String

pub record VideoBanResponse : Type 0 where
  pub video_id : String
  pub status : String
  pub excluded_videos_written : Bool
  pub legacy_nsfw_agg_written : Bool
  pub trace_id : Option String
