-- ===== src/Processing/Outcomes.antt =====
-- What the processing of a job does to the queue: status updates of that job, and nothing else.
use ansuman_nsfw_detection_s.Base.{◌≡◌, refl, ◌∙◌, inl, inr, String, Option, some, Option-cases}
use ansuman_nsfw_detection_s.Base.Dict.{lookup, lookup-insert_self, string_eq}
use ansuman_nsfw_detection_s.Constants.{VideoJobStatus}
use ansuman_nsfw_detection_s.Models.{VideoJob, Datetime}
use ansuman_nsfw_detection_s.Queue.Memory
use ansuman_nsfw_detection_s.Queue.Memory.{Queue, with_status}
use ansuman_nsfw_detection_s.Queue.Memory.Invariant.{IsValid, update_status-IsValid}

-- Status updates of the job `id` lead from a queue to another.
pub data Updates (id : String) : Queue → Queue → Type 0 where
  none_made : (q : Queue) → Updates id q q
  one_more :
      (status : VideoJobStatus) (code message : Option String) (now : Datetime) (q q' : Queue)
      → Updates id q q'
      → Updates id q (Memory.update_status id status code message now q').1

-- They keep the invariant, the messages, what is acknowledged and the dead letters.
pub Updates-IsValid : (id : String) (q q' : Queue) → Updates id q q' → IsValid q → IsValid q'
Updates-IsValid id q _ (none_made _) v = v
Updates-IsValid id q _ (one_more status code message now _ q' u) v =
    update_status-IsValid q' (Updates-IsValid id q q' u v) id status code message now

kept :
    (id : String) (status : VideoJobStatus) (code message : Option String) (now : Datetime)
    (q : Queue)
    → let q' = (Memory.update_status id status code message now q).1 in
      (q'.messages ≡ q.messages) × (q'.acked_message_ids ≡ q.acked_message_ids) × (q'.dlq ≡ q.dlq)
unfolding Memory.update_status
kept id status code message now q = elim (Option-cases (lookup id q.jobs)) [
  | inl none_there ↦ rw (none_there, Memory.update_status) (refl, refl, refl)
  | inr (job, found) ↦ rw (found, Memory.update_status) (refl, refl, refl)
]

pub Updates-keep :
    (id : String) (q q' : Queue)
    → Updates id q q'
    → (q'.messages ≡ q.messages) × (q'.acked_message_ids ≡ q.acked_message_ids) × (q'.dlq ≡ q.dlq)
Updates-keep id q _ (none_made _) = (refl, refl, refl)
Updates-keep id q _ (one_more status code message now _ q' u) =
    let (m, a, d) = Updates-keep id q q' u in
    let (m', a', d') = kept id status code message now q' in (m' ∙ m, a' ∙ a, d' ∙ d)

-- The job that an update stores.
pub update_status-lookup :
    (id : String) (status : VideoJobStatus) (code message : Option String) (now : Datetime)
    (q : Queue) (job : VideoJob)
    → lookup id q.jobs ≡ some job
    → (lookup id (Memory.update_status id status code message now q).1.jobs
        ≡ some (with_status status code message now job))
      × ((Memory.update_status id status code message now q).0
          ≡ some (with_status status code message now job))
unfolding Memory.update_status
update_status-lookup id status code message now q job found =
    rw (found, Memory.update_status)
      (lookup-insert_self id (with_status status code message now job) q.jobs, refl)
