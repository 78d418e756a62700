-- ===== src/Postgres/Jobs.antt =====
-- app/repositories/postgres/video_job_repository.py, and `PostgresVideoJobStateRepository` of
-- app/repositories/postgres/video_finalization.py.
pub mod Started
use ansuman_nsfw_detection_s.Base.{
  ℕ, ◌-◌, String, Bool, true, false, Option, none, some, [], ◌∷◌, if◌then◌else◌,
}
use ansuman_nsfw_detection_s.Constants.{
  VideoJobStatus, value, status_of_value, queued, processing, classified, failed_retryable,
  failed_terminal, status_beq,
}
use ansuman_nsfw_detection_s.Errors.{Outcome, ok, raised, other}
use ansuman_nsfw_detection_s.Effects.{M, ◌>>=◌, ◌>>◌, pure, raise, lift}
use ansuman_nsfw_detection_s.Models.{VideoJob}
use ansuman_nsfw_detection_s.Postgres.Database.{
  JobRow, status_to, last_error_code_to, last_error_message_to, attempts_plus, started_now,
  updated_now, finished_now, finished_null, Statement, insert_job, insert_job_unless_conflict,
  update_job, Session,
}

unfoldable pub video_job_to_row : VideoJob → JobRow
video_job_to_row job = record {
  job_id = job.job_id;
  video_id = job.video_id;
  source_object_version = job.source_object_version;
  policy_version = job.policy_version;
  status = value job.status;
  publisher_user_id = job.publisher_user_id;
  post_id = job.post_id;
  canister_id = job.canister_id;
  source_video_uri = job.source_video_uri;
  upload_event_id = job.upload_event_id;
  trace_id = job.trace_id;
  attempts = job.attempts;
  last_error_code = job.last_error_code;
  last_error_message = job.last_error_message;
  created_at = job.created_at;
  updated_at = job.updated_at;
  started_at = job.started_at;
  finished_at = job.finished_at;
}

abbrev job_with : JobRow → Option VideoJobStatus → Outcome VideoJob
job_with row none = raised (other "ValueError" row.status)
job_with row (some status) = ok (record {
  job_id = row.job_id;
  video_id = row.video_id;
  source_object_version = row.source_object_version;
  policy_version = row.policy_version;
  status = status;
  publisher_user_id = row.publisher_user_id;
  post_id = row.post_id;
  canister_id = row.canister_id;
  source_video_uri = row.source_video_uri;
  upload_event_id = row.upload_event_id;
  trace_id = row.trace_id;
  attempts = row.attempts;
  last_error_code = row.last_error_code;
  last_error_message = row.last_error_message;
  created_at = row.created_at;
  updated_at = row.updated_at;
  started_at = row.started_at;
  finished_at = row.finished_at;
})

unfoldable pub row_to_video_job : JobRow → Outcome VideoJob
row_to_video_job row = job_with row (status_of_value row.status)

-- `status in {FAILED_RETRYABLE, FAILED_TERMINAL}`
abbrev pub is_failure : VideoJobStatus → Bool
is_failure failed_retryable = true
is_failure failed_terminal = true
is_failure _ = false

-- What `mark_processing` inserts for a job that has no row.
unfoldable pub inserted_job : VideoJob → VideoJob
inserted_job job = record job { status = queued; attempts = job.attempts - 1; started_at = none }

module _ {E : Type 0} (session : Session E) where
  abbrev job_of_row : Option JobRow → M E (Option VideoJob)
  job_of_row none = pure none
  job_of_row (some row) = do job ← lift (row_to_video_job row); pure (some job)

  unfoldable pub insert_video_job : VideoJob → M E (Unit {0})
  unfolding video_job_to_row
  insert_video_job job = session.execute (insert_job (video_job_to_row job))

  unfoldable pub get_by_job_id : String → M E (Option VideoJob)
  unfolding row_to_video_job
  get_by_job_id job_id = do row ← session.first_job job_id; job_of_row row

  unfoldable pub get_latest_by_video_id : String → M E (Option VideoJob)
  unfolding row_to_video_job
  get_latest_by_video_id video_id = do row ← session.latest_job video_id; job_of_row row

  -- `VideoJobRepository.mark_processing`
  unfoldable pub mark_processing : String → M E (Unit {0})
  mark_processing job_id = session.execute (
      update_job job_id
        (status_to (value processing) ∷ attempts_plus 1 ∷ started_now ∷ updated_now ∷ []))

  unfoldable pub mark_classified : String → M E (Unit {0})
  mark_classified job_id =
      session.execute
        (update_job job_id (status_to (value classified) ∷ finished_now ∷ updated_now ∷ []))

  -- `VideoJobRepository.mark_failed`
  unfoldable pub mark_failed : String → VideoJobStatus → String → String → M E (Unit {0})
  mark_failed job_id status error_code error_message =
      if is_failure status
      then session.execute (
          update_job job_id (
            status_to (value status)
            ∷ last_error_code_to error_code
            ∷ last_error_message_to error_message
            ∷ (if status_beq status failed_terminal then finished_now else finished_null)
            ∷ updated_now
            ∷ []))
      else raise (other "ValueError" "failed status must be retryable or terminal")

  -- `PostgresVideoJobStateRepository.mark_processing`
  unfoldable pub start_processing : VideoJob → M E (Unit {0})
  unfolding mark_processing
  start_processing job = session.transaction (do
    session.execute (insert_job_unless_conflict (video_job_to_row (inserted_job job)))
    mark_processing job.job_id)

  -- `PostgresVideoJobStateRepository.mark_failed`
  unfoldable pub fail_processing : String → VideoJobStatus → String → String → M E (Unit {0})
  unfolding mark_failed
  fail_processing job_id status error_code error_message =
      session.transaction (mark_failed job_id status error_code error_message)
