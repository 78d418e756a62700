-- ===== src/Worker/Delivery.antt =====
-- What becomes of a message: it is acknowledged once its job is settled, requeued or dead, and stays
-- where it is when the handling breaks off.
use ansuman_nsfw_detection_s.Base.{
  ℕ, ◌+◌, ◌≡◌, refl, sym, ap, ◌∙◌, subst, inl, inr, String, true, false, ◌||◌, some, Bool-cases,
  Option-cases, List, [], ◌∷◌, ◌++◌, In, str_eq, eq_iff, arith, length, any,
}
use ansuman_nsfw_detection_s.Base.Dict.{lookup, string_eq}
use ansuman_nsfw_detection_s.Base.Int.{pos, ltb_ℤ}
use ansuman_nsfw_detection_s.Base.Text.{str, str-injective}
use ansuman_nsfw_detection_s.Constants.{is_terminal}
use ansuman_nsfw_detection_s.Float.{FloatOps}
use ansuman_nsfw_detection_s.Settings.{Settings}
use ansuman_nsfw_detection_s.Errors.{Outcome, ok, raised}
use ansuman_nsfw_detection_s.Models.{VideoJob}
use ansuman_nsfw_detection_s.Queue.Job.{DateText}
use ansuman_nsfw_detection_s.Queue.Memory
use ansuman_nsfw_detection_s.Queue.Memory.{
  Queue, QueuedVideoJobMessage, DeadLetter, is_acked, new_message,
}
use ansuman_nsfw_detection_s.Queue.Memory.Invariant.{
  IsValid, ack-IsValid, dlq-IsValid, append_message-IsValid, Numbered-In,
}
use ansuman_nsfw_detection_s.Queue.Memory.Pending.{not_acked-new, requeue-append_message}
use ansuman_nsfw_detection_s.Processing.{
  Services, World, Processed, finished, failed, crashed, process,
}
use ansuman_nsfw_detection_s.Processing.Outcomes.{Updates, Updates-IsValid, Updates-keep}
use ansuman_nsfw_detection_s.Processing.Process.{Ends, process_lem}
use ansuman_nsfw_detection_s.Worker.{handle_message, settle, to_dlq, after_requeue}

-- What has become of the message, from the queue `q` to the queue `q'`.
pub data Fate (settings : Settings) (message : QueuedVideoJobMessage) (q q' : Queue) : Type 0 where
  settled :
      (job : VideoJob)
      → lookup message.job_id q'.jobs ≡ some job
      → is_terminal job.status ≡ true
      → Fate settings message q q'
  requeued :
      (job : VideoJob) (new : QueuedVideoJobMessage)
      → lookup message.job_id q'.jobs ≡ some job
      → ltb_ℤ (pos job.attempts) settings.queue_max_attempts ≡ true
      → new.job_id ≡ message.job_id
      → q'.messages ≡ q.messages ++ new ∷ []
      → is_acked q' new.message_id ≡ false
      → Fate settings message q q'
  dead :
      (letter : DeadLetter)
      → letter.message_id ≡ message.message_id
      → q'.dlq ≡ q.dlq ++ letter ∷ []
      → Fate settings message q q'

abbrev pub Delivered :
    {E : Type 0} → Settings → QueuedVideoJobMessage → Queue → Outcome (Unit {0}) × World E → Type 0
Delivered settings message q (ok _, w) =
    IsValid w.queue × (is_acked w.queue message.message_id ≡ true) × Fate settings message q w.queue
Delivered settings message q (raised x, w) =
    IsValid w.queue
    × (w.queue.messages ≡ q.messages)
    × (w.queue.acked_message_ids ≡ q.acked_message_ids)
    × (w.queue.dlq ≡ q.dlq)

In-append {ℓ} : {A : Type ℓ} (a : A) (xs ys : List A) → In a xs → In a (xs ++ ys)
In-append a [] ys i = elim i [ ]
In-append a (x ∷ xs) ys (inl e) = inl e
In-append a (x ∷ xs) ys (inr i) = inr (In-append a xs ys i)

is_acked_self :
    (id : String) (ids : List String) → str_eq id id || any (λ a. str_eq a id) ids ≡ true
is_acked_self id ids = rw ((eq_iff id id).1 refl) refl

-- A message of the queue has another id than a new one.
not_new :
    (dates : DateText) (job : VideoJob) (message : QueuedVideoJobMessage) (q : Queue)
    → IsValid q
    → In message q.messages
    → str_eq message.message_id (new_message dates job q).message_id ≡ false
unfolding new_message
not_new dates job message q v i =
    elim (Bool-cases (str_eq message.message_id (str (length q.messages + 1)))) [
      | inl same ↦
          let (k, named, _, le) = Numbered-In 0 q.messages message v.numbered i in
          let equal : k ≡ length q.messages + 1 =
            str-injective k (length q.messages + 1)
              (sym named ∙ (eq_iff message.message_id _).0 same) in
          absurd (omega arith)
      | inr other ↦ other
    ]

module _ {E : Type 0} (dates : DateText) (float : FloatOps) (settings : Settings) (s : Services E)
    (message : QueuedVideoJobMessage) (q : Queue) where
  to_dlq-Delivered :
      (code text : String) (w : World E)
      → IsValid w.queue
      → In message w.queue.messages
      → w.queue.dlq ≡ q.dlq
      → Delivered settings message q (to_dlq dates float settings s message code text w)
  unfolding is_acked Memory.move_video_job_message_to_dlq Memory.ack_video_job_message
  to_dlq-Delivered code text w v i d = (
    dlq-IsValid w.queue v message code text i,
    is_acked_self message.message_id w.queue.acked_message_ids,
    let letter : DeadLetter = record {
      message_id = message.message_id;
      job_id = message.job_id;
      error_code = code;
      error_message = text;
      payload = message.payload;
    } in
        dead letter refl (ap (λ l. l ++ letter ∷ []) d),
  )

  -- Requeueing appends a message for the job, and the old one is acknowledged.
  requeue-Delivered :
      (w : World E) (job : VideoJob)
      → IsValid w.queue
      → In message w.queue.messages
      → w.queue.messages ≡ q.messages
      → lookup message.job_id w.queue.jobs ≡ some job
      → ltb_ℤ (pos job.attempts) settings.queue_max_attempts ≡ true
      → Delivered settings message q (
          after_requeue dates float settings s message w
            (Memory.requeue_video_job dates message.job_id w.queue))
  unfolding is_acked new_message Memory.append_message Memory.ack_video_job_message
  requeue-Delivered w job v i m found below =
      rw (requeue-append_message dates message.job_id job w.queue found) (
        ack-IsValid (Memory.append_message dates job w.queue)
            (append_message-IsValid w.queue v dates job) message
            (In-append message w.queue.messages _ i),
        is_acked_self message.message_id w.queue.acked_message_ids,
        requeued job (new_message dates job w.queue) found below (v.keyed _ job found)
            (ap (λ l. l ++ new_message dates job w.queue ∷ []) m)
            (rw (not_new dates job message w.queue v i, not_acked-new dates job w.queue v) refl),
      )

  settle-Delivered :
      (job : VideoJob) (attempts : ℕ) (r : Processed × World E)
      → job.job_id ≡ message.job_id
      → IsValid q
      → In message q.messages
      → Updates job.job_id q r.1.queue × Ends settings job.job_id attempts r.0 r.1.queue
      → Delivered settings message q (settle dates float settings s message job r)
  unfolding settle is_acked Memory.ack_video_job_message
  settle-Delivered job attempts (finished, w) own v i (u, (job', found, done)) =
      let v' = Updates-IsValid job.job_id q w.queue u v in
      let (m, a, d) = Updates-keep job.job_id q w.queue u in
      (
        ack-IsValid w.queue v' message (rw (m) i),
        is_acked_self message.message_id w.queue.acked_message_ids,
        settled job' (subst (λ k. lookup k w.queue.jobs ≡ some job') own found) done,
      )
  settle-Delivered job attempts (crashed x, w) own v i (u, _) =
      let (m, a, d) = Updates-keep job.job_id q w.queue u in
      (Updates-IsValid job.job_id q w.queue u v, m, a, d)
  settle-Delivered job attempts (failed f, w) own v i (u, (job', found, _, n, bound)) =
      let v' = Updates-IsValid job.job_id q w.queue u v in
      let (m, a, d) = Updates-keep job.job_id q w.queue u in
      let here : In message w.queue.messages = rw (m) i in
      elim (Bool-cases f.retryable) [
        | inl retry ↦
            rw (retry, own)
              (requeue-Delivered w job' v' here m
                (subst (λ k. lookup k w.queue.jobs ≡ some job') own found) (rw (n) (bound retry)))
        | inr over ↦ rw (over) (to_dlq-Delivered f.error_code f.error_message w v' here d)
      ]

  handle_message-Delivered :
      (e : E)
      → IsValid q
      → In message q.messages
      → Delivered settings message q
          (handle_message dates float settings s message (record { queue = q; env = e }))
  unfolding handle_message Memory.get_job_by_id
  handle_message-Delivered e v i =
      let w : World E = record { queue = q; env = e } in
      elim (Bool-cases (str_eq message.job_id "")) [
        | inl blank ↦ rw (blank) (to_dlq-Delivered _ _ w v i refl)
        | inr named ↦ elim (Option-cases (lookup message.job_id q.jobs)) [
          | inl missing ↦ rw (named, missing) (to_dlq-Delivered _ _ w v i refl)
          | inr (job, found) ↦
              let own = v.keyed message.job_id job found in
              rw (named, found)
                (settle-Delivered job job.attempts (process float settings s job w) own v i (
                  process_lem float settings s job job w v
                    (subst (λ k. lookup k q.jobs ≡ some job) (sym own) found)))
        ]
      ]

-- Whatever the services do, the handling of a message of a valid queue leaves a valid queue. If it
-- returns, the message is acknowledged and its job is settled, or is stored below the limit of attempts
-- with a new message of its own that is still to be read, or the message has been added to the dead
-- letters; if an exception leaves it, the messages, what is acknowledged and the dead letters are as before.
pub handle_message_lem :
    {E : Type 0} (dates : DateText) (float : FloatOps) (settings : Settings) (s : Services E)
    (message : QueuedVideoJobMessage) (w : World E)
    → IsValid w.queue
    → In message w.queue.messages
    → Delivered settings message w.queue (handle_message dates float settings s message w)
handle_message_lem dates float settings s message w v i =
    handle_message-Delivered dates float settings s message w.queue w.env v i
