-- ===== src/Postgres/Database.antt =====
-- app/repositories/postgres/tables.py and the statements that the repositories build. PostgreSQL and
-- SQLAlchemy are parameters: `Session` executes a statement.
use ansuman_nsfw_detection_s.Base.{ℕ, String, Bool, Option, List}
use ansuman_nsfw_detection_s.Float.{Double}
use ansuman_nsfw_detection_s.Json.{Json, Fields}
use ansuman_nsfw_detection_s.Effects.{M}
use ansuman_nsfw_detection_s.Models.{Datetime, StorageAction}

-- A row of `nsfw_video_jobs`.
pub record JobRow : Type 0 where
  pub job_id : String
  pub video_id : String
  pub source_object_version : String
  pub policy_version : String
  pub status : String
  pub publisher_user_id : String
  pub post_id : Option String
  pub canister_id : Option String
  pub source_video_uri : String
  pub upload_event_id : Option String
  pub trace_id : Option String
  pub attempts : ℕ
  pub last_error_code : Option String
  pub last_error_message : Option String
  pub created_at : Option Datetime
  pub updated_at : Option Datetime
  pub started_at : Option Datetime
  pub finished_at : Option Datetime

-- A row of `nsfw_frame_results`, less `created_at`, whose default the server sets.
pub record FrameRow : Type 0 where
  pub frame_id : String
  pub job_id : String
  pub video_id : String
  pub frame_index : ℕ
  pub frame_timestamp_seconds : Double
  pub frame_hash : Option String
  pub prompt_version : String
  pub model_provider : String
  pub model_name : String
  pub model_version : Option String
  pub top_category : String
  pub is_nsfw : Bool
  pub overall_severity : ℕ
  pub safe_severity : ℕ
  pub suggestive_severity : ℕ
  pub nudity_severity : ℕ
  pub porn_severity : ℕ
  pub gore_severity : ℕ
  pub violence_severity : ℕ
  pub self_harm_severity : ℕ
  pub hate_or_extremism_severity : ℕ
  pub drugs_severity : ℕ
  pub unknown_severity : ℕ
  pub sexual_minor_content_severity : ℕ
  pub reason : String
  pub raw_response : Json

-- A row of `nsfw_video_results`.
pub record ResultRow : Type 0 where
  pub job_id : String
  pub video_id : String
  pub policy_version : String
  pub prompt_version : String
  pub aggregation_version : String
  pub final_is_nsfw : Bool
  pub final_score : Double
  pub final_top_category : String
  pub max_overall_severity : ℕ
  pub nsfw_frame_count : ℕ
  pub total_frame_count : ℕ
  pub move_required : Bool
  pub move_threshold : Double
  pub legacy_nsfw_ec : String
  pub legacy_nsfw_gore : String
  pub final_response : Fields
  pub created_at : Datetime
  pub updated_at : Datetime

-- A column and its value in `.values(...)` of an update on jobs: `attempts_plus n` is the column
-- `attempts` plus n, and `started_now`, `updated_now` and `finished_now` are `sa.func.now()`.
pub data Assignment : Type 0 where
  status_to last_error_code_to last_error_message_to : String → Assignment
  attempts_plus : ℕ → Assignment
  started_now updated_now finished_now finished_null : Assignment

abbrev pub JobUpdate : Type 0
JobUpdate = List Assignment

-- What is executed; a job's update has the id that its `where` names.
pub data Statement : Type 0 where
  insert_job insert_job_unless_conflict : JobRow → Statement
  update_job : String → JobUpdate → Statement
  insert_frames : List FrameRow → Statement
  insert_result : ResultRow → Statement
  insert_action : StorageAction → Statement

-- A session: `execute`, the reads of one row, and a block under `begin()`.
pub record Session (E : Type 0) : Type 0 where
  pub execute : Statement → M E (Unit {0})
  pub first_job : String → M E (Option JobRow)
  pub latest_job : String → M E (Option JobRow)
  pub first_result : String → M E (Option ResultRow)
  pub latest_result : String → M E (Option ResultRow)
  pub transaction : M E (Unit {0}) → M E (Unit {0})
