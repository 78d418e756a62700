-- ===== src/Tests/Videos.antt =====
-- The theorems at concrete inputs: the queue, the worker and the frames.
use ansuman_nsfw_detection_s.Base.{
  ℕ, ◌≤◌, ◌<◌, ◌≡◌, ◌↔◌, ◌⊎◌, refl, inl, true, false, Option, none, some, List, [], ◌∷◌, All,
  concat, length,
}
use ansuman_nsfw_detection_s.Base.Int.{pos}
use ansuman_nsfw_detection_s.Base.Dict.{lookup, string_eq}
use ansuman_nsfw_detection_s.Errors.{PyException, ok}
use ansuman_nsfw_detection_s.Queue.Job.{job_from_mapping, job_to_mapping}
use ansuman_nsfw_detection_s.Queue.Job.RoundTrip.{blanks_to_none, job_from-to}
use ansuman_nsfw_detection_s.Queue.Memory.{
  Queue, with_status, EnqueueResult, empty_queue, enqueue_video_job, unique_key, new_job,
  new_message, append_message, ack_video_job_message, QueuedVideoJobMessage,
}
use ansuman_nsfw_detection_s.Queue.Memory.Invariant.{IsValid, empty-IsValid, key_of}
use ansuman_nsfw_detection_s.Queue.Memory.Enqueue.{enqueue-IsValid, enqueue_again}
use ansuman_nsfw_detection_s.Frames.{frame_batches, download_video}
use ansuman_nsfw_detection_s.Frames.Batches.{FitsBatch, frame_batches_lem}
use ansuman_nsfw_detection_s.Frames.Download.{download_video_iff}
use ansuman_nsfw_detection_s.Processing.{process}
use ansuman_nsfw_detection_s.Processing.Outcomes.{Updates}
use ansuman_nsfw_detection_s.Processing.Process.{Ends, process_lem}
use ansuman_nsfw_detection_s.Worker.{handle_message}
use ansuman_nsfw_detection_s.Queue.Memory
use ansuman_nsfw_detection_s.Worker.Delivery.{Delivered, handle_message_lem}
use ansuman_nsfw_detection_s.Worker.{run_once}
use ansuman_nsfw_detection_s.Worker.Batch.{Round, run_once_lem}
use ansuman_nsfw_detection_s.Tests.Fixtures.{
  settings, thousandths, decimal_dates, decimal_dates-Laws, request, one_job, first_message,
  one_job-IsValid, one_job-stored, one_job-messages, services,
}

handle_message_lem_example : Delivered settings first_message one_job (
    handle_message decimal_dates thousandths settings services first_message
      (record { queue = one_job; env = tt }))
handle_message_lem_example =
    handle_message_lem decimal_dates thousandths settings services first_message
      (record { queue = one_job; env = tt }) one_job-IsValid (rw (one_job-messages) (inl refl))

process_lem_example :
    let (r, w) =
      process thousandths settings services
        (new_job request 1)
        (record { queue = one_job; env = tt }) in
    Updates "job" one_job w.queue × Ends settings "job" 0 r w.queue
unfolding new_job
process_lem_example =
    process_lem thousandths settings services (new_job request 1) (new_job request 1)
      (record { queue = one_job; env = tt }) one_job-IsValid one_job-stored

enqueue-IsValid_example :
    (r : EnqueueResult) × ((enqueue_video_job decimal_dates request 2 one_job).0 ≡ ok r)
    × IsValid (enqueue_video_job decimal_dates request 2 one_job).1
    × (lookup r.job.job_id (enqueue_video_job decimal_dates request 2 one_job).1.jobs ≡ some r.job)
    × ((r.job.job_id ≡ request.job_id) ⊎ (key_of r.job ≡ unique_key request))
enqueue-IsValid_example = enqueue-IsValid decimal_dates request 2 one_job one_job-IsValid

enqueue_again_example :
    enqueue_video_job decimal_dates request 9 one_job
    ≡ (ok (record { job = new_job request 1; enqueued = false }), one_job)
unfolding enqueue_video_job lookup
enqueue_again_example =
    enqueue_again decimal_dates request 1 empty_queue 9
      (record { job = new_job request 1; enqueued = true }) empty-IsValid refl

job_from-to_example :
    job_from_mapping decimal_dates (job_to_mapping decimal_dates (new_job request 1))
    ≡ ok (blanks_to_none (new_job request 1))
job_from-to_example = job_from-to decimal_dates decimal_dates-Laws (new_job request 1)

frame_batches_lem_example :
    (batches : List (List ℕ)) × (frame_batches (pos 2) (1 ∷ 2 ∷ 3 ∷ []) ≡ ok batches)
    × (concat batches ≡ 1 ∷ 2 ∷ 3 ∷ [])
    × All (FitsBatch 2) batches
frame_batches_lem_example = frame_batches_lem 1 (1 ∷ 2 ∷ 3 ∷ [])

abbrev chunks : List (List ℕ)
chunks = (1 ∷ 2 ∷ []) ∷ (3 ∷ []) ∷ []

abbrev bytes : List ℕ
bytes = 1 ∷ 2 ∷ 3 ∷ []

download_video_iff_example : (download_video (pos 3) none chunks ≡ ok bytes) ↔ (
    (bytes ≡ concat chunks)
    × (◌≡◌ {A = Option PyException} none none)
    × (0 < length bytes)
    × (length bytes ≤ 3))
download_video_iff_example = download_video_iff 3 none chunks bytes

run_once_lem_example :
    Round (Memory.read_video_job_messages 1 one_job) one_job (
      run_once decimal_dates thousandths settings services 1 (record { queue = one_job; env = tt }))
run_once_lem_example =
    run_once_lem decimal_dates thousandths settings services 1
      (record { queue = one_job; env = tt }) one_job-IsValid
