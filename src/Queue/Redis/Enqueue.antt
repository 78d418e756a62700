-- ===== src/Queue/Redis/Enqueue.antt =====
-- Enqueueing on Redis: a new job is stored and queued once, and a key that is taken stops a request.
use ansuman_nsfw_detection_s.Base.{
  ◌≡◌, refl, ap, ◌∙◌, subst, String, none, some, List, [], ◌∷◌, ◌++◌, str_eq, All, true, false,
}
use ansuman_nsfw_detection_s.Base.Dict.{lookup, string_eq}
use ansuman_nsfw_detection_s.Errors.{ok}
use ansuman_nsfw_detection_s.Models.{VideoJob, Datetime}
use ansuman_nsfw_detection_s.Schemas.{VideoDetectRequest}
use ansuman_nsfw_detection_s.Settings.{Settings}
use ansuman_nsfw_detection_s.Queue.Job.{DateText, DateTextLaws, optional, non_empty, job_to_mapping}
use ansuman_nsfw_detection_s.Queue.Job.RoundTrip.{blanks_to_none}
use ansuman_nsfw_detection_s.Queue.Memory
use ansuman_nsfw_detection_s.Queue.Memory.{Queue, EnqueueResult, new_job}
use ansuman_nsfw_detection_s.Queue.Memory.Enqueue.{lookup-store_job}
use ansuman_nsfw_detection_s.Queue.Stream.{Client, hset, set, set_nx, Raw, mapping}
use ansuman_nsfw_detection_s.Queue.Redis.{
  Texts, job_key, unique_key, video_id_key, writes, create, enqueue_unseen, enqueue_video_job,
}
use ansuman_nsfw_detection_s.Queue.Redis.Server.{Kind, Fits, Keyed, Server, acts, write_all-acts}
use ansuman_nsfw_detection_s.Queue.Redis.Jobs.{Holds, write-Represents, empty_of}
use ansuman_nsfw_detection_s.Queue.Redis.Refinement.{get-found}
use ansuman_nsfw_detection_s.Queue.Redis.Answers.{
  Mirrors, queued_entries, keep-Represents, already-answer, already-waiting, xadd-waiting,
  enqueue_known,
}

-- The key of a request's job.
abbrev pub key_of : VideoDetectRequest → String
key_of r = unique_key r.video_id r.source_object_version r.policy_version

module _ {E : Type 0} {c : Client E} {kind : String → Kind} (dates : DateText)
    (laws : DateTextLaws dates) (texts : Texts) (settings : Settings) (s : Server c kind)
    (keyed : Keyed kind settings) where
  module _ (request : VideoDetectRequest) (e : E) (q : Queue) where
    enqueue_unknown :
        (now : Datetime)
        → lookup request.job_id q.jobs ≡ none
        → Mirrors dates laws texts settings s keyed e q
        → enqueue_video_job dates texts settings c request now e
          ≡ enqueue_unseen dates texts settings c request now e
    unfolding enqueue_video_job
    enqueue_unknown now missing r =
        let d = s.hash_of (job_key request.job_id) e in
        let blank =
          subst (λ o. Holds dates laws texts settings s keyed o d) missing
            (r.held request.job_id) in
        rw (
          s.hgetall_lem (job_key request.job_id) e (keyed.job_key_hash request.job_id),
          enqueue_video_job,
          empty_of d blank,
        )

    abbrev written : Datetime → E
    written now = acts s (writes dates texts settings c request (new_job request now)) e

    writes-Fits :
        (now : Datetime)
        → All (Fits kind) (writes dates texts settings c request (new_job request now))
    unfolding writes new_job
    writes-Fits now = (
      keyed.job_key_hash request.job_id,
      (
        keyed.unique_key_scalar request.video_id request.source_object_version
            request.policy_version,
        (keyed.video_id_key_scalar request.video_id, (keyed.queue_stream, tt)),
      ),
    )

    enqueue_fresh :
        (now : Datetime)
        → lookup request.job_id q.jobs ≡ none
        → s.text_at (key_of request) e ≡ none
        → Mirrors dates laws texts settings s keyed e q
        → enqueue_video_job dates texts settings c request now e
          ≡ (ok (record { job = new_job request now; enqueued = true }), written now)
    unfolding create optional
    enqueue_fresh now missing free r =
        enqueue_unknown now missing r
        ∙ rw (
          s.get_lem (key_of request) e (
              keyed.unique_key_scalar request.video_id request.source_object_version
                request.policy_version),
          free,
          create,
          write_all-acts s (writes dates texts settings c request (new_job request now)) e
              (writes-Fits now),
        )

    -- The new job is stored, as it is in memory.
    written-Represents :
        (now : Datetime)
        → Mirrors dates laws texts settings s keyed e q
        → Mirrors dates laws texts settings s keyed
            (written now)
            (Memory.store_job dates request now q)
    unfolding writes new_job Memory.store_job Memory.append_message
    written-Represents now r =
        let q' = Memory.store_job dates request now q in
        let job = new_job request now in
        keep-Represents dates laws texts settings s keyed _ _ q' (λ k f o. refl)
          (keep-Represents dates laws texts settings s keyed _ _ q' (λ k f o. refl)
            (keep-Represents dates laws texts settings s keyed _ _ q' (λ k f o. refl)
              (write-Represents dates laws texts settings s keyed request.job_id job e q q' refl
                r)))

    -- Its entry waits behind the others.
    abbrev pub entry : Datetime → Raw
    entry now = mapping (
        ("job_id", request.job_id)
        ∷ ("payload", texts.dumps (job_to_mapping dates (new_job request now)))
        ∷ [])

    written-waiting :
        (now : Datetime)
        → (id : String) × (queued_entries dates laws texts settings s keyed (written now)
            ≡ queued_entries dates laws texts settings s keyed e ++ (id, entry now) ∷ [])
    unfolding writes new_job
    written-waiting now =
        let a =
          s.act (hset (job_key request.job_id) (job_to_mapping dates (new_job request now))) e in
        let b = s.act (set (key_of request) request.job_id) a in
        let d = s.act (set (video_id_key request.video_id) request.job_id) b in
        (
          s.next_id settings.queue_stream_name d,
          xadd-waiting dates laws texts settings s keyed settings.queue_stream_name _ d
              ∙ ap
                  (λ (l : List (String × Raw)).
                    l ++ (s.next_id settings.queue_stream_name d, entry now) ∷ [])
                  (s.waiting-act _ _ (set (video_id_key request.video_id) request.job_id) b
                    ∙ s.waiting-act _ _ (set (key_of request) request.job_id) a
                    ∙ s.waiting-act _ _
                        (hset (job_key request.job_id) (job_to_mapping dates (new_job request now)))
                        e),
        )

    -- On a server that answers, and that holds the jobs of the queue in memory, a request whose id is not stored and whose unique key is free is answered with its new job; the server then holds the jobs that memory holds once the job is stored there, and the job's entry waits in the stream behind those that waited. The same request sent again, at any time, is answered with the same job, as one that is not enqueued, and nothing more waits.
    pub enqueue_once :
        (now later : Datetime)
        → lookup request.job_id q.jobs ≡ none
        → s.text_at (key_of request) e ≡ none
        → Mirrors dates laws texts settings s keyed e q
        → (e' : E) × (e'' : E) × (id : String) × (enqueue_video_job dates texts settings c request
              now e
            ≡ (ok (record { job = new_job request now; enqueued = true }), e'))
          × Mirrors dates laws texts settings s keyed e' (Memory.store_job dates request now q)
          × (queued_entries dates laws texts settings s keyed e'
              ≡ queued_entries dates laws texts settings s keyed e ++ (id, entry now) ∷ [])
          × (enqueue_video_job dates texts settings c request later e'
              ≡ (ok (record { job = blanks_to_none (new_job request now); enqueued = false }), e''))
          × (queued_entries dates laws texts settings s keyed e''
              ≡ queued_entries dates laws texts settings s keyed e')
    enqueue_once now later missing free r =
        let job = blanks_to_none (new_job request now) in
        let (id, waits) = written-waiting now in
        let r' = written-Represents now r in
        (
          written now,
          s.act (set_nx (video_id_key job.video_id) job.job_id) (written now),
          id,
          enqueue_fresh now missing free r,
          r',
          waits,
          enqueue_known dates laws texts settings s keyed request (written now)
                (Memory.store_job dates request now q) later (new_job request now)
                (lookup-store_job dates request now q) r'
              ∙ already-answer dates laws texts settings s keyed job (written now),
          already-waiting dates laws texts settings s keyed job (written now),
        )

    -- On a server that answers, and that holds the jobs of the queue in memory, a request whose id is not stored, and whose unique key names a stored job, is answered with that job whatever its status is, as one that is not enqueued, and nothing more waits in the stream.
    pub enqueue_taken :
        (now : Datetime) (id : String) (job : VideoJob)
        → lookup request.job_id q.jobs ≡ none
        → s.text_at (key_of request) e ≡ some id
        → str_eq id "" ≡ false
        → lookup id q.jobs ≡ some job
        → Mirrors dates laws texts settings s keyed e q
        → (e' : E) × (enqueue_video_job dates texts settings c request now e
            ≡ (ok (record { job = blanks_to_none job; enqueued = false }), e'))
          × Mirrors dates laws texts settings s keyed e' q
          × (queued_entries dates laws texts settings s keyed e'
              ≡ queued_entries dates laws texts settings s keyed e)
    unfolding optional non_empty
    enqueue_taken now id job missing taken nonempty found r =
        let job' = blanks_to_none job in
        (
          s.act (set_nx (video_id_key job'.video_id) job'.job_id) e,
          enqueue_unknown now missing r
              ∙ rw
                  (
                    s.get_lem (key_of request) e (
                        keyed.unique_key_scalar request.video_id request.source_object_version
                          request.policy_version),
                    taken,
                    nonempty,
                    get-found dates laws texts settings s keyed e q id (some job) found r,
                  )
                  (already-answer dates laws texts settings s keyed job' e),
          keep-Represents dates laws texts settings s keyed _ e q (λ k f o. refl) r,
          already-waiting dates laws texts settings s keyed job' e,
        )
