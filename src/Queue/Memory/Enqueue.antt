-- ===== src/Queue/Memory/Enqueue.antt =====
-- Enqueueing: it never raises on a valid queue, and a second request for the same job changes
-- nothing.
use mathlib.Core.Option.{some-injective}
use ansuman_nsfw_detection_s.Base.{
  ◌≡◌, refl, sym, ap, ◌∙◌, ◌⊎◌, inl, inr, String, true, false, none, some, Bool-cases, Option-cases,
}
use ansuman_nsfw_detection_s.Base.Dict.{lookup, insert, lookup-insert_self, string_eq, triple_eq}
use ansuman_nsfw_detection_s.Errors.{Outcome, ok, ok-injective}
use ansuman_nsfw_detection_s.Models.{VideoJob, Datetime}
use ansuman_nsfw_detection_s.Schemas.{VideoDetectRequest}
use ansuman_nsfw_detection_s.Queue.Job.{DateText}
use ansuman_nsfw_detection_s.Queue.Memory.{
  Queue, EnqueueResult, unique_key, new_job, is_settled_or_live, store_job, enqueue_video_job,
}
use ansuman_nsfw_detection_s.Queue.Memory.Invariant.{
  IsValid, key_of, append_message-IsValid, store-IsValid, index-IsValid,
}

module _ (dates : DateText) (request : VideoDetectRequest) (now : Datetime) (q : Queue) where
  -- The ways in which a request ends: with the job of that id, with the job of that key, or with a
  -- new job.
  data Ending : Outcome EnqueueResult × Queue → Type 0 where
    same_id :
        (job : VideoJob)
        → lookup request.job_id q.jobs ≡ some job
        → Ending (ok (record { job = job; enqueued = false }), q)
    same_key :
        (id : String) (job : VideoJob)
        → lookup request.job_id q.jobs ≡ none
        → lookup (unique_key request) q.unique_index ≡ some id
        → lookup id q.jobs ≡ some job
        → is_settled_or_live job.status ≡ true
        → Ending (ok (record { job = job; enqueued = false }), q)
    created :
        lookup request.job_id q.jobs ≡ none
        → Ending (
          ok (record { job = new_job request now; enqueued = true }),
          store_job dates request now q,
        )

  enqueue-Ending : IsValid q → Ending (enqueue_video_job dates request now q)
  unfolding enqueue_video_job
  enqueue-Ending v = elim (Option-cases (lookup request.job_id q.jobs)) [
    | inr (job, e) ↦ rw (e, enqueue_video_job) (same_id job e)
    | inl no_job ↦ elim (Option-cases (lookup (unique_key request) q.unique_index)) [
      | inl no_key ↦ rw (no_job, no_key, enqueue_video_job) (created no_job)
      | inr (id, key) ↦
          let (job, found, _) = v.indexed (unique_key request) id key in
          elim (Bool-cases (is_settled_or_live job.status)) [
            | inl live ↦
                rw (no_job, key, found, live, enqueue_video_job)
                  (same_key id job no_job key found live)
            | inr retry ↦ rw (no_job, key, found, retry, enqueue_video_job) (created no_job)
          ]
    ]
  ]

  store_job-IsValid :
      IsValid q → lookup request.job_id q.jobs ≡ none → IsValid (store_job dates request now q)
  unfolding store_job new_job
  store_job-IsValid v no_job =
      let job = new_job request now in
      let q' : Queue = record q { jobs = insert request.job_id job q.jobs } in
      let v' : IsValid q' = store-IsValid q v job (λ old e. absurd (cc)) in
      append_message-IsValid _
        (index-IsValid q' v' job (lookup-insert_self request.job_id job q.jobs)) dates job

  pub lookup-store_job :
      lookup request.job_id (store_job dates request now q).jobs ≡ some (new_job request now)
  unfolding store_job new_job
  lookup-store_job = lookup-insert_self request.job_id (new_job request now) q.jobs

  -- What an answered request leaves behind.
  record IsAnswered (out : Outcome EnqueueResult × Queue) : Type 0 where
    pub result : EnqueueResult
    pub answer : out.0 ≡ ok result
    pub valid : IsValid out.1
    pub stored : lookup result.job.job_id out.1.jobs ≡ some result.job
    pub same : (result.job.job_id ≡ request.job_id) ⊎ (key_of result.job ≡ unique_key request)

  Ending-IsAnswered :
      IsValid q → {out : Outcome EnqueueResult × Queue} → Ending out → IsAnswered out
  unfolding new_job
  Ending-IsAnswered v (same_id job e) =
      let own = v.keyed request.job_id job e in
      record {
        result = record { job = job; enqueued = false };
        answer = refl;
        valid = v;
        stored = ap (λ x. lookup x q.jobs) own ∙ e;
        same = inl own;
      }
  Ending-IsAnswered v (same_key id job _ key found live) =
      let own = v.keyed id job found in
      let (job', found', fits) = v.indexed (unique_key request) id key in
      record {
        result = record { job = job; enqueued = false };
        answer = refl;
        valid = v;
        stored = ap (λ x. lookup x q.jobs) own ∙ found;
        same = inr (ap key_of (some-injective job job' (sym found ∙ found')) ∙ fits);
      }
  Ending-IsAnswered v (created no_job) = record {
    result = record { job = new_job request now; enqueued = true };
    answer = refl;
    valid = store_job-IsValid v no_job;
    stored = lookup-store_job;
    same = inl refl;
  }

  -- On a valid queue a request is answered, never with an exception: the queue stays valid, the job
  -- in the answer is stored, and it has the request's id or its unique key.
  pub enqueue-IsValid :
      IsValid q
      → (r : EnqueueResult) × ((enqueue_video_job dates request now q).0 ≡ ok r)
        × IsValid (enqueue_video_job dates request now q).1
        × (lookup r.job.job_id (enqueue_video_job dates request now q).1.jobs ≡ some r.job)
        × ((r.job.job_id ≡ request.job_id) ⊎ (key_of r.job ≡ unique_key request))
  enqueue-IsValid v =
      let a = Ending-IsAnswered v (enqueue-Ending v) in
      (a.result, a.answer, a.valid, a.stored, a.same)

  Ending-again :
      (later : Datetime) (r : EnqueueResult) {out : Outcome EnqueueResult × Queue}
      → Ending out
      → out.0 ≡ ok r
      → enqueue_video_job dates request later out.1
        ≡ (ok (record { job = r.job; enqueued = false }), out.1)
  unfolding enqueue_video_job
  Ending-again later r (same_id job e) answer =
      rw (e, enqueue_video_job, ap (λ (x : EnqueueResult). x.job) (ok-injective answer))
  Ending-again later r (same_key id job no_job key found live) answer = rw (
    no_job,
    key,
    found,
    live,
    enqueue_video_job,
    ap (λ (x : EnqueueResult). x.job) (ok-injective answer),
  )
  Ending-again later r (created no_job) answer =
      rw (
        lookup-store_job,
        enqueue_video_job,
        ap (λ (x : EnqueueResult). x.job) (ok-injective answer),
      )

  -- A request that is sent again, at any time, gets the same job, is not enqueued a second time, and
  -- changes nothing.
  pub enqueue_again :
      (later : Datetime) (r : EnqueueResult)
      → IsValid q
      → (enqueue_video_job dates request now q).0 ≡ ok r
      → let q' = (enqueue_video_job dates request now q).1 in
        enqueue_video_job dates request later q'
        ≡ (ok (record { job = r.job; enqueued = false }), q')
  enqueue_again later r v answer = Ending-again later r (enqueue-Ending v) answer
