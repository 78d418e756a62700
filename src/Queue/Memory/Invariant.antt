-- ===== src/Queue/Memory/Invariant.antt =====
-- The invariant of the queue, which every operation keeps.
use mathlib.Core.Option.{some-injective}
use ansuman_nsfw_detection_s.Base.{
  ℕ, ◌+◌, ◌≤◌, ◌<◌, ◌≡◌, refl, sym, ap, subst, ◌∙◌, inl, inr, String, Option, some, List, [], ◌∷◌,
  ◌++◌, str_eq, eq_iff, arith, length, length-append, In, Bool-cases, Option-cases,
}
use ansuman_nsfw_detection_s.Base.Dict.{
  Triple, lookup, insert, lookup-insert, lookup-insert_eq, lookup-insert_ne, string_eq, triple_eq,
  triple_beq, triple_beq_iff,
}
use ansuman_nsfw_detection_s.Base.Text.{str}
use ansuman_nsfw_detection_s.Constants.{VideoJobStatus}
use ansuman_nsfw_detection_s.Models.{VideoJob, Datetime}
use ansuman_nsfw_detection_s.Queue.Job.{DateText}
use ansuman_nsfw_detection_s.Queue.Memory.{
  Queue, QueuedVideoJobMessage, empty_queue, with_status, ack_video_job_message,
  move_video_job_message_to_dlq, update_status, new_message, append_message, requeue_video_job,
}

abbrev pub key_of : VideoJob → Triple
key_of job = (job.video_id, job.source_object_version, job.policy_version)

-- The ids of the messages count up from `n + 1`.
abbrev pub Numbered : ℕ → List QueuedVideoJobMessage → Type 0
Numbered n [] = Unit
Numbered n (m ∷ ms) = (m.message_id ≡ str (n + 1)) × Numbered (n + 1) ms

pub record IsValid (q : Queue) : Type 0 where
  -- a job is stored under its own id
  pub keyed : (id : String) (job : VideoJob) → lookup id q.jobs ≡ some job → job.job_id ≡ id
  -- the index leads to a stored job with that key
  pub indexed :
      (k : Triple) (id : String)
      → lookup k q.unique_index ≡ some id
      → (job : VideoJob) × (lookup id q.jobs ≡ some job) × (key_of job ≡ k)
  pub numbered : Numbered 0 q.messages
  -- only ids that were given out are acknowledged
  pub acked :
      (id : String) → In id q.acked_message_ids → (n : ℕ) × (id ≡ str n) × (n ≤ length q.messages)

pub empty-IsValid : IsValid empty_queue
unfolding lookup
empty-IsValid = record {
  keyed = λ id job e. cc;
  indexed = λ k id e. cc;
  numbered = tt;
  acked = λ id i. elim i [ ];
}

Numbered-append :
    (n : ℕ) (ms : List QueuedVideoJobMessage) (m : QueuedVideoJobMessage)
    → Numbered n ms
    → m.message_id ≡ str (n + length ms + 1)
    → Numbered n (ms ++ m ∷ [])
Numbered-append n [] m h e = (e ∙ ap str (omega arith), tt)
Numbered-append n (l ∷ ms) m h e =
    (h.0, Numbered-append (n + 1) ms m h.1 (e ∙ ap str (omega arith)))

pub Numbered-In :
    (n : ℕ) (ms : List QueuedVideoJobMessage) (m : QueuedVideoJobMessage)
    → Numbered n ms
    → In m ms
    → (k : ℕ) × (m.message_id ≡ str k) × (n < k) × (k ≤ n + length ms)
Numbered-In n [] m h i = elim i [ ]
Numbered-In n (l ∷ ms) m h (inl e) = (n + 1, rw (← e) h.0, omega arith, omega arith)
Numbered-In n (l ∷ ms) m h (inr i) =
    let (k, e, low, high) = Numbered-In (n + 1) ms m h.1 i in (k, e, omega arith, omega arith)

module _ (q : Queue) (v : IsValid q) where
  -- A new job under a new id and any key.
  insert-keyed :
      (job : VideoJob) (id : String) (job' : VideoJob)
      → lookup id (insert job.job_id job q.jobs) ≡ some job'
      → job'.job_id ≡ id
  insert-keyed job id job' e =
      grind (arith, lookup-insert job.job_id id job q.jobs, eq_iff job.job_id id, v.keyed id job')

  pub append_message-IsValid :
      (dates : DateText) (job : VideoJob) → IsValid (append_message dates job q)
  unfolding append_message
  append_message-IsValid dates job = record {
    keyed = v.keyed;
    indexed = v.indexed;
    numbered =
        Numbered-append 0 q.messages (new_message dates job q) v.numbered (ap str (omega arith));
    acked = λ id i.
        let (n, e, le) = v.acked id i in
        (n, e, omega (arith, length-append q.messages (new_message dates job q ∷ [])));
  }

  -- A job that replaces one of its id and key, or is the first of its id.
  pub store-IsValid :
      (job : VideoJob)
      → ((old : VideoJob) → lookup job.job_id q.jobs ≡ some old → key_of old ≡ key_of job)
      → IsValid (record q { jobs = insert job.job_id job q.jobs })
  store-IsValid job same = record {
    keyed = insert-keyed job;
    indexed = λ k id e.
        let (old, found, key) = v.indexed k id e in
        elim (Bool-cases (str_eq job.job_id id)) [
          | inl eq ↦ (
            job,
            rw (lookup-insert job.job_id id job q.jobs, eq) refl,
            sym (same old (rw ((eq_iff job.job_id id).0 eq) found)) ∙ key,
          )
          | inr ne ↦ (old, rw (lookup-insert job.job_id id job q.jobs, ne) found, key)
        ];
    numbered = v.numbered;
    acked = v.acked;
  }

  -- An index entry for a stored job.
  pub index-IsValid :
      (job : VideoJob)
      → lookup job.job_id q.jobs ≡ some job
      → IsValid (record q { unique_index = insert (key_of job) job.job_id q.unique_index })
  index-IsValid job found = record {
    keyed = v.keyed;
    indexed = λ k id e. elim (Bool-cases (triple_beq (key_of job) k)) [
      | inl eq ↦
          let here : job.job_id ≡ id =
            cc (e, lookup-insert_eq (key_of job) k job.job_id q.unique_index eq) in
          (job, rw (← here) found, (triple_beq_iff (key_of job) k).0 eq)
      | inr ne ↦
          v.indexed k id (sym (lookup-insert_ne (key_of job) k job.job_id q.unique_index ne) ∙ e)
    ];
    numbered = v.numbered;
    acked = v.acked;
  }

  pub ack-IsValid :
      (m : QueuedVideoJobMessage) → In m q.messages → IsValid (ack_video_job_message m.message_id q)
  unfolding ack_video_job_message
  ack-IsValid m i = record {
    keyed = v.keyed;
    indexed = v.indexed;
    numbered = v.numbered;
    acked = λ id j. elim j [
      | inl e ↦
          let (k, named, _, le) = Numbered-In 0 q.messages m v.numbered i in
          (k, sym e ∙ named, omega arith)
      | inr earlier ↦ v.acked id earlier
    ];
  }

  pub dlq-IsValid :
      (m : QueuedVideoJobMessage) (code message : String)
      → In m q.messages
      → IsValid (move_video_job_message_to_dlq m code message q)
  unfolding move_video_job_message_to_dlq
  dlq-IsValid m code message i =
      let a = ack-IsValid m i in
      record { keyed = a.keyed; indexed = a.indexed; numbered = a.numbered; acked = a.acked }

  -- A status update keeps the job's id and key.
  pub update_status-IsValid :
      (id : String) (status : VideoJobStatus) (code message : Option String) (now : Datetime)
      → IsValid (update_status id status code message now q).1
  unfolding update_status with_status
  update_status-IsValid id status code message now = elim (Option-cases (lookup id q.jobs)) [
    | inl none_there ↦ rw (none_there, update_status) v
    | inr (job, found) ↦
        rw (found, update_status)
          (let own = v.keyed id job found in
            let job' = with_status status code message now job in
            subst (λ x. IsValid (record q { jobs = insert x job' q.jobs })) own
              (store-IsValid job' (λ old e.
                ap key_of
                  (some-injective old job (sym e ∙ ap (λ x. lookup x q.jobs) own ∙ found)))))
  ]

  pub requeue-IsValid : (dates : DateText) (id : String) → IsValid (requeue_video_job dates id q).1
  unfolding requeue_video_job
  requeue-IsValid dates id = elim (Option-cases (lookup id q.jobs)) [
    | inl none_there ↦ rw (none_there, requeue_video_job) v
    | inr (job, found) ↦ rw (found, requeue_video_job) (append_message-IsValid dates job)
  ]
