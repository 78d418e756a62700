-- ===== src/Processing/Process.antt =====
-- The whole of `process`: what it leaves in the queue, by how it ends.
use ansuman_nsfw_detection_s.Base.{
  ℕ, ◌+◌, ◌≡◌, refl, sym, subst, inl, inr, String, true, false, ◌&&◌, Option, some, none,
  Bool-cases, &&_split,
}
use ansuman_nsfw_detection_s.Base.Dict.{lookup, string_eq}
use ansuman_nsfw_detection_s.Base.Int.{ℤ, pos, ltb_ℤ}
use ansuman_nsfw_detection_s.Constants.{processing, classified, is_terminal, status_beq}
use ansuman_nsfw_detection_s.Float.{FloatOps}
use ansuman_nsfw_detection_s.Settings.{Settings}
use ansuman_nsfw_detection_s.Errors.{PyException, Outcome, ok, raised}
use ansuman_nsfw_detection_s.Models.{VideoJob, Datetime}
use ansuman_nsfw_detection_s.Queue.Memory
use ansuman_nsfw_detection_s.Queue.Memory.{Queue, with_status}
use ansuman_nsfw_detection_s.Queue.Memory.Invariant.{IsValid}
use ansuman_nsfw_detection_s.Processing.{
  Services, World, Processed, finished, failed, crashed, classify_processing_error, is_retryable,
  update_status, process_video, record_failure, attempt, process, mark_classified, cleaned,
  after_prepare, after_mark_failed, after_video, after_mark_processing, is_classified,
  after_persisted, classify_video,
}
use ansuman_nsfw_detection_s.Processing.Outcomes.{
  Updates, none_made, one_more, update_status-lookup,
}

-- The stored job after a run that began with `attempts` attempts: finished runs leave it settled,
-- a failure leaves its status, one attempt more, and allows a retry only below the limit.
abbrev pub Ends : Settings → String → ℕ → Processed → Queue → Type 0
Ends settings id attempts finished q =
    (job : VideoJob) × (lookup id q.jobs ≡ some job) × (is_terminal job.status ≡ true)
Ends settings id attempts (failed failure) q =
    (job : VideoJob) × (lookup id q.jobs ≡ some job)
    × (job.status ≡ failure.status)
    × (job.attempts ≡ attempts + 1)
    × (failure.retryable ≡ true → ltb_ℤ (pos (attempts + 1)) settings.queue_max_attempts ≡ true)
Ends settings id attempts (crashed x) q = Unit

failure_status :
    (exc : PyException) (attempts : ℕ) (limit : ℤ)
    → status_beq (classify_processing_error exc attempts limit).status processing ≡ false
unfolding classify_processing_error
failure_status exc attempts limit =
    elim (Bool-cases (is_retryable exc && ltb_ℤ (pos attempts) limit)) [
      | inl r ↦ rw (r) refl
      | inr r ↦ rw (r) refl
    ]

retry_bound :
    (exc : PyException) (attempts : ℕ) (limit : ℤ)
    → (classify_processing_error exc attempts limit).retryable ≡ true
    → ltb_ℤ (pos attempts) limit ≡ true
unfolding classify_processing_error
retry_bound exc attempts limit h = (&&_split (is_retryable exc) (ltb_ℤ (pos attempts) limit) h).1

module _ {E : Type 0} (float : FloatOps) (settings : Settings) (s : Services E) where
  -- The queue of a result, reached by updates of the job `id` from `q`, and how the run ended.
  abbrev Good : String → ℕ → Queue → Processed × World E → Type 0
  Good id attempts q (r, w) = Updates id q w.queue × Ends settings id attempts r w.queue

  -- Before a failure is recorded the job has been given its attempt.
  abbrev Stored : String → ℕ → VideoJob → Queue → Queue → Type 0
  Stored id attempts job q q' =
      Updates id q q'
      × (lookup id q'.jobs ≡ some job)
      × (job.job_id ≡ id)
      × (job.attempts ≡ attempts + 1)

  module _ (id : String) (attempts : ℕ) (job : VideoJob) (q : Queue) where
    after_mark_failed-Good :
        (exc : PyException) (r : Outcome (Unit {0}) × E) (q' : Queue) (now : Datetime)
        → Stored id attempts job q q'
        → let f = classify_processing_error exc job.attempts settings.queue_max_attempts in
          Good id attempts q (
            after_mark_failed float settings s f r
              (Memory.update_status id f.status
                (some f.error_code)
                (some f.error_message)
                now
                q').1)
    unfolding with_status
    after_mark_failed-Good exc (raised x, e) q' now (u, found, own, n) =
        (one_more _ _ _ now q q' u, tt)
    after_mark_failed-Good exc (ok _, e) q' now (u, found, own, n) = (
      one_more _ _ _ now q q' u,
      (
        _,
        (update_status-lookup id _ _ _ now q' job found).0,
        refl,
        rw (failure_status exc job.attempts settings.queue_max_attempts) n,
        λ retry.
            subst (λ k. ltb_ℤ (pos k) settings.queue_max_attempts ≡ true) n
              (retry_bound exc job.attempts settings.queue_max_attempts retry),
      ),
    )

    record_failure-Good :
        (exc : PyException) (w : World E)
        → Stored id attempts job q w.queue
        → Good id attempts q (record_failure float settings s exc job w)
    unfolding record_failure update_status
    record_failure-Good exc w (u, found, own, n) =
        subst
          (λ i.
            let f = classify_processing_error exc job.attempts settings.queue_max_attempts in
            Good id attempts q (
              after_mark_failed float settings s f
                (s.mark_failed job.job_id f.status f.error_code f.error_message w.env)
                (Memory.update_status i f.status (some f.error_code) (some f.error_message)
                  (s.now w.env) w.queue).1))
          (sym own) (after_mark_failed-Good exc _ w.queue (s.now w.env) (u, found, own, n))

    cleaned-Good :
        (r : Outcome (Unit {0}) × E) (q' : Queue)
        → Stored id attempts job q q'
        → Good id attempts q (
            after_video float settings s job
              (cleaned float settings s job (mark_classified float settings s job r q')))
    unfolding update_status with_status
    cleaned-Good (raised x, e) q' h =
        record_failure-Good x (record { queue = q'; env = s.cleanup_dir job.job_id e }) h
    cleaned-Good (ok _, e) q' (u, found, own, n) =
        subst
          (λ i.
            let q'' = (Memory.update_status i classified none none (s.now e) q').1 in
            Updates id q q'' × Ends settings id attempts finished q'')
          (sym own)
          (
            one_more classified none none (s.now e) q q' u,
            (_, (update_status-lookup id _ _ _ (s.now e) q' job found).0, refl),
          )

    after_prepare-Good :
        (r : Outcome (Unit {0}) × E) (q' : Queue)
        → Stored id attempts job q q'
        → Good id attempts q
            (after_video float settings s job (after_prepare float settings s job r q'))
    after_prepare-Good (raised x, e) q' h = record_failure-Good x (record { queue = q'; env = e }) h
    after_prepare-Good (ok _, e) q' h = cleaned-Good (classify_video float settings s job e) q' h

    after_mark_processing-Good :
        (r : Outcome (Unit {0}) × E) (q' : Queue)
        → Stored id attempts job q q'
        → Good id attempts q (after_mark_processing float settings s job r q')
    unfolding process_video
    after_mark_processing-Good (raised x, e) q' h =
        record_failure-Good x (record { queue = q'; env = e }) h
    after_mark_processing-Good (ok _, e) q' h =
        after_prepare-Good (s.prepare_job_dir job.job_id e) q' h

  module _ (job current : VideoJob) (q : Queue) (v : IsValid q)
      (found : lookup job.job_id q.jobs ≡ some current) where
    attempt-Good :
        (e : E)
        → Good job.job_id current.attempts q
            (attempt float settings s job current (record { queue = q; env = e }))
    unfolding attempt update_status with_status
    attempt-Good e =
        let updated =
          update_status-lookup job.job_id processing none none (s.now e) q current found in
        rw (updated.1) (
          after_mark_processing-Good job.job_id current.attempts
            (with_status processing none none (s.now e) current) q
            (s.mark_processing (with_status processing none none (s.now e) current) e)
            (Memory.update_status job.job_id processing none none (s.now e) q).1
            (
              one_more processing none none (s.now e) q q (none_made q),
              updated.0,
              v.keyed job.job_id current found,
              refl,
            ))

    after_persisted-Good :
        (r : Outcome (Option VideoJob) × E)
        → Good job.job_id current.attempts q (after_persisted float settings s job current r q)
    unfolding update_status with_status
    after_persisted-Good (raised x, e) = (none_made q, tt)
    after_persisted-Good (ok persisted, e) =
        elim (Bool-cases (is_classified float settings s persisted)) [
          | inl done ↦ rw (done) (
            one_more classified none none (s.now e) q q (none_made q),
            (_, (update_status-lookup job.job_id _ _ _ (s.now e) q current found).0, refl),
          )
          | inr live ↦ rw (live) (attempt-Good e)
        ]

    process-Good :
        (e : E)
        → Good job.job_id current.attempts q
            (process float settings s job (record { queue = q; env = e }))
    unfolding process Memory.get_job_by_id
    process-Good e = elim (Bool-cases (is_terminal current.status)) [
      | inl done ↦ rw (found, done) (none_made q, (current, found, done))
      | inr live ↦ rw (found, live) (after_persisted-Good (s.get_by_job_id job.job_id e))
    ]

-- Whatever the services do, the processing of a stored job of a valid queue changes the queue by status updates of that
-- job alone. If it returns, the job is settled; if it fails, the job has the failure's status and one
-- attempt more than before, and a failure that is to be retried leaves the attempts below the limit.
pub process_lem :
    {E : Type 0} (float : FloatOps) (settings : Settings) (s : Services E) (job current : VideoJob)
    (w : World E)
    → IsValid w.queue
    → lookup job.job_id w.queue.jobs ≡ some current
    → let (r, w') = process float settings s job w in
      Updates job.job_id w.queue w'.queue × Ends settings job.job_id current.attempts r w'.queue
process_lem float settings s job current w v found =
    process-Good float settings s job current w.queue v found w.env
