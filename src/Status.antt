-- ===== src/Status.antt =====
-- app/services/video_status_service.py: what is known of a video, from its job in the queue and from the
-- stored results.
use ansuman_nsfw_detection_s.Base.{String, Option, none, some, if◌then◌else◌}
use ansuman_nsfw_detection_s.Constants.{classified, status_beq}
use ansuman_nsfw_detection_s.Effects.{M, ◌>>=◌, pure}
use ansuman_nsfw_detection_s.Models.{VideoJob, VideoModerationResult}
use ansuman_nsfw_detection_s.Schemas.{VideoFinalResultResponse, VideoStatusResponse}
use mathlib.Core.Option

-- `VideoResultReader`
pub record ResultReader (E : Type 0) : Type 0 where
  pub get_by_job_id : String → M E (Option VideoModerationResult)
  pub get_latest_by_video_id : String → M E (Option VideoModerationResult)

unfoldable pub final_result_response : VideoModerationResult → VideoFinalResultResponse
final_result_response result = record {
  policy_version = result.policy_version;
  prompt_version = result.prompt_version;
  aggregation_version = result.aggregation_version;
  final_is_nsfw = result.final_is_nsfw;
  final_score = result.final_score;
  final_top_category = result.final_top_category;
  max_overall_severity = result.max_overall_severity;
  nsfw_frame_count = result.nsfw_frame_count;
  total_frame_count = result.total_frame_count;
  move_required = result.move_required;
  move_threshold = result.move_threshold;
  max_category_severities = result.max_category_severities;
  legacy_nsfw_ec = result.legacy_nsfw_ec;
  legacy_nsfw_gore = result.legacy_nsfw_gore;
  final_response = result.final_response;
}

-- The response for a job, with its final result if there is one.
unfoldable pub job_response : VideoJob → Option VideoModerationResult → VideoStatusResponse
unfolding final_result_response
job_response job final_result = record {
  job_id = job.job_id;
  video_id = job.video_id;
  status = job.status;
  trace_id = job.trace_id;
  attempts = job.attempts;
  last_error_code = job.last_error_code;
  last_error_message = job.last_error_message;
  final_result = Option.map final_result_response final_result;
}

-- The response for a result whose job the queue does not know.
unfoldable pub result_response : VideoModerationResult → VideoStatusResponse
unfolding final_result_response
result_response result = record {
  job_id = result.job_id;
  video_id = result.video_id;
  status = classified;
  trace_id = none;
  attempts = 0;
  last_error_code = none;
  last_error_message = none;
  final_result = some (final_result_response result);
}

-- `get_job` is the queue service's `get_status_by_video_id`.
module _ {E : Type 0} (get_job : String → M E (Option VideoJob))
    (reader : Option (ResultReader E)) where
  abbrev latest_result : Option (ResultReader E) → String → M E (Option VideoStatusResponse)
  latest_result none video_id = pure none
  latest_result (some r) video_id = do
    result ← r.get_latest_by_video_id video_id
    pure (Option.map result_response result)

  -- `_classified_status_from_result`
  unfoldable pub classified_status_from_result : String → M E (Option VideoStatusResponse)
  unfolding result_response
  classified_status_from_result video_id = latest_result reader video_id

  abbrev pub final_result_of :
      Option (ResultReader E) → VideoJob → M E (Option VideoModerationResult)
  final_result_of none job = pure none
  final_result_of (some r) job =
      if status_beq job.status classified then r.get_by_job_id job.job_id else pure none

  abbrev status_of : String → Option VideoJob → M E (Option VideoStatusResponse)
  status_of video_id none = classified_status_from_result video_id
  status_of video_id (some job) = do
    final_result ← final_result_of reader job
    pure (some (job_response job final_result))

  unfoldable pub get_status_by_video_id : String → M E (Option VideoStatusResponse)
  unfolding classified_status_from_result job_response
  get_status_by_video_id video_id = do job ← get_job video_id; status_of video_id job
