-- ===== src/Queue/Redis/Answers.antt =====
-- What commands keep of the jobs and of the waiting entries, and the answer with a stored job.
use ansuman_nsfw_detection_s.Base.{
  ◌≡◌, refl, ◌∙◌, subst, String, Option, none, some, List, [], ◌∷◌, ◌++◌, eq_iff, false,
}
use ansuman_nsfw_detection_s.Base.Dict.{lookup, string_eq}
use ansuman_nsfw_detection_s.Errors.{ok}
use ansuman_nsfw_detection_s.Models.{VideoJob, Datetime}
use ansuman_nsfw_detection_s.Schemas.{VideoDetectRequest}
use ansuman_nsfw_detection_s.Settings.{Settings}
use ansuman_nsfw_detection_s.Queue.Job.{DateText, DateTextLaws, job_to_mapping, Mapping}
use ansuman_nsfw_detection_s.Queue.Job.RoundTrip.{blanks_to_none, job_from-to}
use ansuman_nsfw_detection_s.Queue.Memory.{Queue}
use ansuman_nsfw_detection_s.Queue.Stream.{Client, Command, set_nx, xadd, Raw, mapping}
use ansuman_nsfw_detection_s.Queue.Redis.{Texts, job_key, video_id_key, already, enqueue_video_job}
use ansuman_nsfw_detection_s.Queue.Redis.Server.{Kind, Keyed, Server, field_after}
use ansuman_nsfw_detection_s.Queue.Redis.Jobs.{
  Holds, Represents, nonempty_of, job_from_mapping-eq, job_id-field,
}

module _ {E : Type 0} {c : Client E} {kind : String → Kind} (dates : DateText)
    (laws : DateTextLaws dates) (texts : Texts) (settings : Settings) (s : Server c kind)
    (keyed : Keyed kind settings) where
  abbrev pub Mirrors : E → Queue → Type 0
  Mirrors e q = Represents dates laws texts settings s keyed e q

  abbrev pub queued_entries : E → List (String × Raw)
  queued_entries e = s.waiting settings.queue_stream_name settings.queue_group_name e

  pub keep-Holds :
      (m : Command) (k : String) (e : E)
      → ((f : String) (o : Option String) → field_after k f m o ≡ o)
      → (o : Option VideoJob) → Holds dates laws texts settings s keyed o (s.hash_of k e)
      → Holds dates laws texts settings s keyed o (s.hash_of k (s.act m e))
  keep-Holds m k e same none h = λ f. s.lookup-act k f m e ∙ same f _ ∙ h f
  keep-Holds m k e same (some job) h = λ f. s.lookup-act k f m e ∙ same f _ ∙ h f

  -- A command that writes no hash keeps the jobs.
  pub keep-Represents :
      (m : Command) (e : E) (q : Queue)
      → ((k f : String) (o : Option String) → field_after k f m o ≡ o)
      → Mirrors e q
      → Mirrors (s.act m e) q
  keep-Represents m e q same r = record {
    held = λ id. keep-Holds m (job_key id) e (same (job_key id)) (lookup id q.jobs) (r.held id);
  }

  -- An answer with a job that exists adds nothing to the stream and keeps the jobs.
  pub already-answer :
      (job : VideoJob) (e : E)
      → already dates texts settings c job e ≡ (
        ok (record { job = job; enqueued = false }),
        s.act (set_nx (video_id_key job.video_id) job.job_id) e,
      )
  already-answer job e = rw (
      s.run_lem (set_nx (video_id_key job.video_id) job.job_id) e
        (keyed.video_id_key_scalar job.video_id))

  pub already-waiting :
      (job : VideoJob) (e : E)
      → queued_entries (s.act (set_nx (video_id_key job.video_id) job.job_id) e) ≡ queued_entries e
  already-waiting job e = s.waiting-act _ _ (set_nx (video_id_key job.video_id) job.job_id) e

  pub xadd-waiting :
      (t : String) (d : Mapping) (e : E)
      → s.waiting t settings.queue_group_name (s.act (xadd t d) e)
        ≡ s.waiting t settings.queue_group_name e ++ (s.next_id t e, mapping d) ∷ []
  xadd-waiting t d e =
      s.waiting-act t settings.queue_group_name (xadd t d) e ∙ rw ((eq_iff t t).1 refl)

  module _ (request : VideoDetectRequest) (e : E) (q : Queue) where
    -- A request whose job is stored is answered with that job.
    pub enqueue_known :
        (now : Datetime) (job : VideoJob)
        → lookup request.job_id q.jobs ≡ some job
        → Mirrors e q
        → enqueue_video_job dates texts settings c request now e
          ≡ already dates texts settings c (blanks_to_none job) e
    unfolding enqueue_video_job
    enqueue_known now job found r =
        let d = s.hash_of (job_key request.job_id) e in
        let same =
          subst (λ o. Holds dates laws texts settings s keyed o d) found (r.held request.job_id) in
        rw (
          s.hgetall_lem (job_key request.job_id) e (keyed.job_key_hash request.job_id),
          enqueue_video_job,
          nonempty_of "job_id" job.job_id d (same "job_id" ∙ job_id-field dates job),
          job_from_mapping-eq dates d (job_to_mapping dates job) same,
          job_from-to dates laws job,
        )
