-- ===== src/Api/Accepted.antt =====
-- A video that the API accepts can be asked for.
use ansuman_nsfw_detection_s.Base.{
  Bool-cases, inl, inr, ◌≡◌, refl, sym, String, Option, none, some, subst,
}
use ansuman_nsfw_detection_s.Float.{Double, FloatOps}
use ansuman_nsfw_detection_s.Errors.{Outcome, ok, raised, ok-injective}
use ansuman_nsfw_detection_s.Effects.{M}
use ansuman_nsfw_detection_s.Settings.{Settings}
use ansuman_nsfw_detection_s.Models.{VideoJob, VideoModerationResult, Datetime}
use ansuman_nsfw_detection_s.Schemas.{VideoDetectRequest, VideoDetectResponse, VideoStatusResponse}
use ansuman_nsfw_detection_s.Queue.Job.{DateText}
use ansuman_nsfw_detection_s.Queue.Memory.{Queue, EnqueueResult}
use ansuman_nsfw_detection_s.Queue.Memory
use ansuman_nsfw_detection_s.Queue.Memory.Invariant.{IsValid}
use ansuman_nsfw_detection_s.Queue.Memory.Enqueue.{enqueue-IsValid}
use ansuman_nsfw_detection_s.Queue.Memory.Lookup.{get_job_by_video_id-stored}
use ansuman_nsfw_detection_s.Queue.Repository.{memory_repository}
use ansuman_nsfw_detection_s.Queue.Service
use ansuman_nsfw_detection_s.Queue.Service.{
  enqueue_video_detection, pool_retry, read_with_pool_retry, pool_max_attempts,
}
use ansuman_nsfw_detection_s.Queue.Service.Retries.{positive}
use ansuman_nsfw_detection_s.Status
use ansuman_nsfw_detection_s.Status.{ResultReader, job_response, final_result_of}
use ansuman_nsfw_detection_s.Constants.{classified, status_beq}
use ansuman_nsfw_detection_s.Api.{detect_video, video_status}

-- A read that answers at once is not retried.
read_at_once :
    {E A : Type 0} (float : FloatOps) (settings : Option Settings) (sleep : Double → E → E)
    (operation : M E A) (e e' : E) (a : A)
    → operation e ≡ (ok a, e')
    → read_with_pool_retry float settings sleep operation e ≡ (ok a, e')
unfolding read_with_pool_retry pool_retry
read_at_once float settings sleep operation e e' a h =
    subst (λ n. pool_retry float settings sleep operation n 1 e ≡ (ok a, e'))
      (sym (positive settings)) (rw h)

module _ (dates : DateText) (float : FloatOps) (settings : Option Settings)
    (sleep : Double → Queue → Queue) (now later : Datetime)
    (reader : Option (ResultReader Queue)) where
  -- Stored results, where they are read, are read with no exception and no change.
  abbrev pub IsQuiet : Option (ResultReader Queue) → Type 0
  IsQuiet none = Unit {0}
  IsQuiet (some r) =
      (job_id : String) (q : Queue)
      → (o : Option VideoModerationResult) × (r.get_by_job_id job_id q ≡ (ok o, q))

  -- The two routes on the queue in memory.
  abbrev pub detect : VideoDetectRequest → M Queue VideoDetectResponse
  detect request = detect_video (enqueue_video_detection (memory_repository dates now)) request

  abbrev pub status : String → M Queue VideoStatusResponse
  status video_id =
      video_status
        (Status.get_status_by_video_id
          (Service.get_status_by_video_id float settings sleep (memory_repository dates later))
          reader)
        video_id

  abbrev response_of : EnqueueResult → VideoDetectResponse
  response_of result = record {
    job_id = result.job.job_id;
    video_id = result.job.video_id;
    status = result.job.status;
    trace_id = result.job.trace_id;
  }

  detect-answer :
      (request : VideoDetectRequest) (q : Queue) (result : EnqueueResult)
      (out : Outcome EnqueueResult × Queue)
      → Memory.enqueue_video_job dates request now q ≡ out
      → out.0 ≡ ok result
      → detect request q ≡ (ok (response_of result), out.1)
  unfolding detect_video enqueue_video_detection
  detect-answer request q result (ok r, q') went answer =
      rw (went, detect_video, ok-injective answer)
  detect-answer request q result (raised x, q') went answer = absurd (cc)

  abbrev get_job : String → M Queue (Option VideoJob)
  get_job = Service.get_status_by_video_id float settings sleep (memory_repository dates later)

  final_result-found :
      (r : Option (ResultReader Queue)) (job : VideoJob) (q : Queue)
      → IsQuiet r
      → (o : Option VideoModerationResult) × (final_result_of get_job r r job q ≡ (ok o, q))
  final_result-found none job q quiet = (none, refl)
  final_result-found (some r) job q quiet = elim (Bool-cases (status_beq job.status classified)) [
    | inl done ↦ (let (o, e) = quiet job.job_id q in (o, rw done e))
    | inr live ↦ (none, rw live)
  ]

  status-found :
      (video_id : String) (job : VideoJob) (q : Queue)
      → IsQuiet reader
      → Memory.get_job_by_video_id video_id q ≡ some job
      → (o : Option VideoModerationResult) × (status video_id q ≡ (ok (job_response job o), q))
  unfolding video_status Status.get_status_by_video_id Service.get_status_by_video_id
  status-found video_id job q quiet found =
      let (o, e) = final_result-found reader job q quiet in
      (
        o,
        rw (
          read_at_once float settings sleep (λ q. (ok (Memory.get_job_by_video_id video_id q), q)) q
              q (some job) (rw found refl),
          Status.get_status_by_video_id,
          e,
          video_status,
        ),
      )

  -- On a valid queue in memory, and with no reader of stored results or one that reads with no exception and no change, a request for a detection is accepted, and then the status of the video in the answer, asked for at any time before anything else happens, is found: it is that of a job of this video, and asking changes nothing.
  pub accepted_is_found :
      (request : VideoDetectRequest) (q : Queue)
      → IsValid q
      → IsQuiet reader
      → (r : VideoDetectResponse) × (q' : Queue) × (s : VideoStatusResponse) × (detect request q
          ≡ (ok r, q'))
        × IsValid q'
        × (status r.video_id q' ≡ (ok s, q'))
        × (s.video_id ≡ r.video_id)
  unfolding job_response
  accepted_is_found request q v quiet =
      let q' = (Memory.enqueue_video_job dates request now q).1 in
      let (result, answer, v', stored, _) = enqueue-IsValid dates request now q v in
      let (job, found, same) = get_job_by_video_id-stored result.job.job_id result.job q' stored in
      let (o, e) = status-found result.job.video_id job q' quiet found in
      (
        response_of result,
        q',
        job_response job o,
        detect-answer request q result _ refl answer,
        v',
        e,
        same,
      )
