-- ===== src/Processing.antt =====
-- app/services/video_processing_service.py: how a video job is processed. What the processor is given
-- (the repository of job states in PostgreSQL, the extraction, moderation and finalisation services,
-- the file system) acts on an environment `E`, and is an interface: each call may raise. The queue is
-- the repository in memory.
pub mod Outcomes
pub mod Process
use Prim.Native.String.{◌++◌ as text_append}
use ansuman_nsfw_detection_s.Base.{
  ℕ, zero, suc, String, Bool, true, false, not, ◌&&◌, ◌||◌, Option, none, some, List, [], ◌∷◌, ◌++◌,
  str_eq, leb, ◌==◌, any, length, or_else, if◌then◌else◌,
}
use ansuman_nsfw_detection_s.Base.Int.{ℤ, pos, ltb_ℤ}
use ansuman_nsfw_detection_s.Base.Text.{str, first_chars}
use ansuman_nsfw_detection_s.Constants.{
  VideoJobStatus, processing, classified, failed_retryable, failed_terminal, status_beq,
  is_terminal,
}
use ansuman_nsfw_detection_s.Float.{FloatOps}
use ansuman_nsfw_detection_s.Settings.{Settings}
use ansuman_nsfw_detection_s.Errors.Codes
use ansuman_nsfw_detection_s.Errors.{
  AppError, PyException, app, http_status, timeout, request, Outcome, ok, raised, class_name,
  text_of,
}
use ansuman_nsfw_detection_s.Models.{
  VideoJob, VideoMetadata, FrameModerationResult, VideoModerationResult, Datetime,
}
use ansuman_nsfw_detection_s.Frames.{ExtractedFrame, frame_batches}
use ansuman_nsfw_detection_s.Aggregation.{aggregate}
use ansuman_nsfw_detection_s.Queue.Memory
use ansuman_nsfw_detection_s.Queue.Memory.{Queue}

abbrev pub terminal_processing_error_codes : List String
terminal_processing_error_codes =
    Codes.video_download_empty ∷ Codes.video_too_large ∷ Codes.video_no_stream
    ∷ Codes.video_probe_failed ∷ Codes.video_extraction_failed ∷ []

pub record ProcessingFailure : Type 0 where
  pub status : VideoJobStatus
  pub error_code : String
  pub error_message : String
  pub retryable : Bool

abbrev pub is_terminal_code : String → Bool
is_terminal_code code = any (λ c. str_eq c code) terminal_processing_error_codes

-- The order of the tests is that of the classes: an HTTPStatusError is no RequestError, and a
-- timeout is one.
unfoldable pub is_retryable : PyException → Bool
is_retryable (http_status status text) = status == 408 || status == 429 || leb 500 status
is_retryable (timeout name text) = true
is_retryable (request name text) = true
is_retryable (app e) = not (is_terminal_code e.code) && leb 500 e.status_code
is_retryable _ = true

unfoldable pub error_code : PyException → String
error_code (app e) = e.code
error_code (http_status status text) = text_append "http_" (str status)
error_code e = class_name e

-- `str(exc) or exc.__class__.__name__`
abbrev named : PyException → String
named e = if str_eq (text_of e) "" then class_name e else text_of e

unfoldable pub error_message : PyException → String
error_message (app e) = first_chars 1000 e.message
error_message e = first_chars 1000 (named e)

unfoldable pub classify_processing_error : PyException → ℕ → ℤ → ProcessingFailure
classify_processing_error exc attempts max_attempts =
    let retryable = is_retryable exc && ltb_ℤ (pos attempts) max_attempts in
    record {
      status = if retryable then failed_retryable else failed_terminal;
      error_code = error_code exc;
      error_message = error_message exc;
      retryable = retryable;
    }

-- How `process` ends: it returns, it raises VideoJobProcessingError with a failure, or another
-- exception leaves it.
pub data Processed : Type 0 where
  finished : Processed
  failed : ProcessingFailure → Processed
  crashed : PyException → Processed

module _ (E : Type 0) where
  -- A call on the environment.
  abbrev pub Call : Type 0 → Type 0
  Call A = E → Outcome A × E

  pub record Services : Type 0 where
    -- datetime.now
    pub now : E → Datetime
    -- the repository of job states
    pub get_by_job_id : String → Call (Option VideoJob)
    pub mark_processing : VideoJob → Call (Unit {0})
    pub mark_failed : String → VideoJobStatus → String → String → Call (Unit {0})
    -- the directory of a job, the download, ffprobe and ffmpeg
    pub prepare_job_dir : String → Call (Unit {0})
    pub download_video : VideoJob → Call (Unit {0})
    pub probe : VideoJob → Call VideoMetadata
    pub extract_frames : VideoJob → Call (List ExtractedFrame)
    pub cleanup_dir : String → E → E
    -- the GPU service and the finalisation
    pub moderate_frame_batch : List ExtractedFrame → Call (List FrameModerationResult)
    pub finalize_classification :
        VideoJob
        → VideoMetadata
        → List FrameModerationResult
        → VideoModerationResult
        → Call (Unit {0})

  pub record World : Type 0 where
    pub queue : Queue
    pub env : E

module _ {E : Type 0} where
  abbrev continue : {A B : Type 0} → Outcome A × E → (A → Call E B) → Outcome B × E
  continue (ok a, e) k = k a e
  continue (raised x, e) k = (raised x, e)

  infixl 5 ◌>>=◌ ◌>>◌
  abbrev pub ◌>>=◌ : {A B : Type 0} → Call E A → (A → Call E B) → Call E B
  ◌>>=◌ m k e = continue (m e) k

  abbrev pub ◌>>◌ : {A B : Type 0} → Call E A → Call E B → Call E B
  m >> k = m >>= λ _. k

  -- A pure computation that may raise.
  abbrev lift : {A : Type 0} → Outcome A → Call E A
  lift r e = (r, e)

  -- The queue's record of a job, at the time of the call.
  unfoldable pub update_status :
      Services E
      → String
      → VideoJobStatus
      → Option String
      → Option String
      → World E
      → Option VideoJob × World E
  update_status s job_id status code message w =
      let (job, q) = Memory.update_status job_id status code message (s.now w.env) w.queue in
      (job, record w { queue = q })

module _ {E : Type 0} (float : FloatOps) (settings : Settings) (s : Services E) where
  -- `frame_results.extend(...)` for each batch.
  unfoldable pub moderate_batches : List (List ExtractedFrame) → Call E (List FrameModerationResult)
  moderate_batches [] = lift (ok [])
  moderate_batches (batch ∷ batches) = do
    results ← s.moderate_frame_batch batch
    rest ← moderate_batches batches
    lift (ok (results ++ rest))

  abbrev read_now : Call E Datetime
  read_now e = (ok (s.now e), e)

  -- The body of `_process_video` up to the finalisation, which acts on the environment alone.
  unfoldable pub classify_video : VideoJob → Call E (Unit {0})
  unfolding moderate_batches
  classify_video job = do
    s.download_video job
    metadata ← s.probe job
    frames ← s.extract_frames job
    batches ← lift (frame_batches settings.frame_batch_size frames)
    results ← moderate_batches batches
    now ← read_now
    result ← lift (aggregate float settings job.job_id job.video_id job.policy_version now results)
    s.finalize_classification job (record metadata { frames_extracted = length frames }) results
        result

  abbrev pub mark_classified :
      VideoJob → Outcome (Unit {0}) × E → Queue → Outcome (Unit {0}) × World E
  mark_classified job (raised x, e) q = (raised x, record { queue = q; env = e })
  mark_classified job (ok _, e) q =
      (ok tt, (update_status s job.job_id classified none none (record { queue = q; env = e })).1)

  -- The `finally` clause.
  abbrev pub cleaned : VideoJob → Outcome (Unit {0}) × World E → Outcome (Unit {0}) × World E
  cleaned job (r, w) = (r, record w { env = s.cleanup_dir job.job_id w.env })

  abbrev pub after_prepare :
      VideoJob → Outcome (Unit {0}) × E → Queue → Outcome (Unit {0}) × World E
  after_prepare job (raised x, e) q = (raised x, record { queue = q; env = e })
  after_prepare job (ok _, e) q = cleaned job (mark_classified job (classify_video job e) q)

  unfoldable pub process_video : VideoJob → World E → Outcome (Unit {0}) × World E
  unfolding update_status
  process_video job w = after_prepare job (s.prepare_job_dir job.job_id w.env) w.queue

  abbrev pub after_mark_failed :
      ProcessingFailure → Outcome (Unit {0}) × E → Queue → Processed × World E
  after_mark_failed failure (ok _, e) q = (failed failure, record { queue = q; env = e })
  after_mark_failed failure (raised x, e) q = (crashed x, record { queue = q; env = e })

  -- The `except` clause: the failure is recorded in both repositories and raised.
  unfoldable pub record_failure : PyException → VideoJob → World E → Processed × World E
  unfolding update_status classify_processing_error
  record_failure exc job w =
      let failure = classify_processing_error exc job.attempts settings.queue_max_attempts in
      let (_, w') =
        update_status s job.job_id failure.status (some failure.error_code)
          (some failure.error_message) w in
      after_mark_failed failure
        (s.mark_failed job.job_id failure.status failure.error_code failure.error_message w'.env)
        w'.queue

  abbrev pub after_video : VideoJob → Outcome (Unit {0}) × World E → Processed × World E
  after_video job (ok _, w) = (finished, w)
  after_video job (raised x, w) = record_failure x job w

  abbrev pub after_mark_processing : VideoJob → Outcome (Unit {0}) × E → Queue → Processed × World E
  after_mark_processing job (raised x, e) q = record_failure x job (record { queue = q; env = e })
  after_mark_processing job (ok _, e) q =
      after_video job (process_video job (record { queue = q; env = e }))

  -- A job that is neither done nor persisted as classified.
  unfoldable pub attempt : VideoJob → VideoJob → World E → Processed × World E
  unfolding update_status process_video record_failure
  attempt job current w =
      let (updated, w') = update_status s job.job_id processing none none w in
      let processing_job = or_else updated current in
      after_mark_processing processing_job (s.mark_processing processing_job w'.env) w'.queue

  abbrev pub is_classified : Option VideoJob → Bool
  is_classified none = false
  is_classified (some job) = status_beq job.status classified

  abbrev pub after_persisted :
      VideoJob → VideoJob → Outcome (Option VideoJob) × E → Queue → Processed × World E
  after_persisted job current (raised x, e) q = (crashed x, record { queue = q; env = e })
  after_persisted job current (ok persisted, e) q =
      let w : World E = record { queue = q; env = e } in
      if is_classified persisted
      then (finished, (update_status s job.job_id classified none none w).1)
      else attempt job current w

  -- `VideoJobProcessor.process`
  unfoldable pub process : VideoJob → World E → Processed × World E
  unfolding attempt
  process job w =
      let current = or_else (Memory.get_job_by_id job.job_id w.queue) job in
      if is_terminal current.status
      then (finished, w)
      else after_persisted job current (s.get_by_job_id job.job_id w.env) w.queue
