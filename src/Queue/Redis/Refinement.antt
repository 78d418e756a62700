-- ===== src/Queue/Redis/Refinement.antt =====
-- The Redis queue keeps the jobs as the queue in memory does.
use mathlib.Core.Option
use ansuman_nsfw_detection_s.Base.{
  ◌≡◌, refl, ap, ◌∙◌, inl, inr, String, Option, none, some, str_eq, Bool-cases,
}
use ansuman_nsfw_detection_s.Base.Dict.{lookup, insert, string_eq}
use ansuman_nsfw_detection_s.Constants.{VideoJobStatus}
use ansuman_nsfw_detection_s.Errors.{Outcome, ok}
use ansuman_nsfw_detection_s.Models.{VideoJob, Datetime}
use ansuman_nsfw_detection_s.Settings.{Settings}
use ansuman_nsfw_detection_s.Queue.Job.{DateText, DateTextLaws, optional, non_empty, job_to_mapping}
use ansuman_nsfw_detection_s.Queue.Job.RoundTrip.{blanks_to_none}
use ansuman_nsfw_detection_s.Queue.Memory
use ansuman_nsfw_detection_s.Queue.Memory.{Queue, with_status}
use ansuman_nsfw_detection_s.Queue.Stream.{Client, hset}
use ansuman_nsfw_detection_s.Queue.Redis.{Texts, job_key, get_job_by_id, update_status}
use ansuman_nsfw_detection_s.Queue.Redis.Server.{Kind, Keyed, Server}
use ansuman_nsfw_detection_s.Queue.Redis.Jobs.{
  Represents, get-Holds, write-Represents, with_status-blanks,
}

optional-optional : (o : Option String) → optional (optional o) ≡ optional o
unfolding optional non_empty
optional-optional none = refl
optional-optional (some s) = elim (Bool-cases (str_eq s "")) [ inl e ↦ rw e | inr e ↦ rw (e, e) ]

-- A blank text and None are the same to a change of status, but for blanks.
blanks-with_status :
    (status : VideoJobStatus) (code message : Option String) (now : Datetime) (job : VideoJob)
    → blanks_to_none (with_status status code message now (blanks_to_none job))
      ≡ blanks_to_none (with_status status code message now job)
unfolding blanks_to_none with_status
blanks-with_status status code message now job = simp (optional-optional)

module _ {E : Type 0} {c : Client E} {kind : String → Kind} (dates : DateText)
    (laws : DateTextLaws dates) (texts : Texts) (settings : Settings) (s : Server c kind)
    (keyed : Keyed kind settings) (e : E) (q : Queue) where
  -- What a change of a job's status must answer and leave behind, by what it does in memory.
  record Refines (out : Outcome (Option VideoJob) × E) (expected : Option VideoJob × Queue)
      : Type 0 where
    pub result : Option VideoJob
    pub state : E
    pub answer : out ≡ (ok result, state)
    pub same : Option.map blanks_to_none result ≡ Option.map blanks_to_none expected.0
    pub kept : Represents dates laws texts settings s keyed state expected.1

  -- On a server that answers, and that holds the jobs of the queue in memory, a job is found by its id exactly if it is there in memory, and it is the same job but for blank optional texts, which are None.
  pub get_job_by_id-refines :
      (job_id : String)
      → Represents dates laws texts settings s keyed e q
      → get_job_by_id dates texts settings c job_id e
        ≡ (ok (Option.map blanks_to_none (Memory.get_job_by_id job_id q)), e)
  unfolding Memory.get_job_by_id
  get_job_by_id-refines job_id r =
      get-Holds dates laws texts settings s keyed job_id e (lookup job_id q.jobs) (r.held job_id)

  pub get-found :
      (job_id : String) (o : Option VideoJob)
      → lookup job_id q.jobs ≡ o
      → Represents dates laws texts settings s keyed e q
      → get_job_by_id dates texts settings c job_id e ≡ (ok (Option.map blanks_to_none o), e)
  unfolding Memory.get_job_by_id
  get-found job_id o found r = get_job_by_id-refines job_id r ∙ rw found refl

  module _ (job_id : String) (status : VideoJobStatus) (code message : Option String)
      (now : Datetime) where
    update-Refines :
        (o : Option VideoJob)
        → lookup job_id q.jobs ≡ o
        → Represents dates laws texts settings s keyed e q
        → Refines
            (update_status dates texts settings c job_id status code message now e)
            (Memory.update_status job_id status code message now q)
    unfolding update_status Memory.update_status
    update-Refines none found r = rw found (record {
      result = none;
      state = e;
      answer = rw (get-found job_id none found r, update_status);
      same = refl;
      kept = r;
    })
    update-Refines (some job) found r =
        let job' = with_status status code message now (blanks_to_none job) in
        let stored = with_status status code message now job in
        rw found (record {
          result = some job';
          state = s.act (hset (job_key job_id) (job_to_mapping dates job')) e;
          answer = rw (
            get-found job_id (some job) found r,
            update_status,
            s.run_lem (hset (job_key job_id) (job_to_mapping dates job')) e
                (keyed.job_key_hash job_id),
          );
          same = ap some (blanks-with_status status code message now job);
          kept = rw (with_status-blanks dates status code message now job) (
              write-Represents dates laws texts settings s keyed job_id stored e q
                (record q { jobs = insert job_id stored q.jobs }) refl r);
        })

    -- On a server that answers, and that holds the jobs of the queue in memory, a change of a job's status gives the answer that it gives in memory, but for blank optional texts, and leaves the server holding the jobs that memory then has.
    pub update_status-refines :
        Represents dates laws texts settings s keyed e q
        → (result : Option VideoJob) × (e' : E) × (update_status dates texts settings c job_id
              status code message now e
            ≡ (ok result, e'))
          × (Option.map blanks_to_none result
              ≡ Option.map blanks_to_none (Memory.update_status job_id status code message now q).0)
          × Represents dates laws texts settings s keyed e'
              (Memory.update_status job_id status code message now q).1
    update_status-refines r =
        let f = update-Refines (lookup job_id q.jobs) refl r in
        (f.result, f.state, f.answer, f.same, f.kept)
