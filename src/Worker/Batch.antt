-- ===== src/Worker/Batch.antt =====
-- A round of the worker: the messages that are read, one after the other.
use ansuman_nsfw_detection_s.Base.{
  ℕ, zero, suc, ◌≡◌, refl, sym, subst, inl, inr, String, Bool, true, not, some, Bool-cases,
  Option-cases, List, [], ◌∷◌, ◌++◌, In, str_eq, select, take, arith, length,
}
use ansuman_nsfw_detection_s.Base.Dict.{lookup, string_eq}
use ansuman_nsfw_detection_s.Float.{FloatOps}
use ansuman_nsfw_detection_s.Settings.{Settings}
use ansuman_nsfw_detection_s.Errors.{Outcome, ok, raised}
use ansuman_nsfw_detection_s.Models.{VideoJob}
use ansuman_nsfw_detection_s.Queue.Job.{DateText}
use ansuman_nsfw_detection_s.Queue.Memory
use ansuman_nsfw_detection_s.Queue.Memory.{Queue, QueuedVideoJobMessage, is_acked}
use ansuman_nsfw_detection_s.Queue.Memory.Invariant.{IsValid}
use ansuman_nsfw_detection_s.Processing.{
  Services, World, Processed, finished, failed, crashed, process,
}
use ansuman_nsfw_detection_s.Processing.Outcomes.{Updates, Updates-keep}
use ansuman_nsfw_detection_s.Processing.Process.{process_lem}
use ansuman_nsfw_detection_s.Worker.{
  handle_message, handle_messages, run_once, settle, after_requeue, then_messages, counted,
}
use ansuman_nsfw_detection_s.Worker.Delivery.{Delivered, handle_message_lem}

-- No message is lost from a queue to another, and what is acknowledged stays so.
pub record Grown (q q' : Queue) : Type 0 where
  pub messages : (m : QueuedVideoJobMessage) → In m q.messages → In m q'.messages
  pub acks : (id : String) → is_acked q id ≡ true → is_acked q' id ≡ true

same-Grown : (q : Queue) → Grown q q
same-Grown q = record { messages = λ m i. i; acks = λ id h. h }

Grown-trans : {q r s : Queue} → Grown q r → Grown r s → Grown q s
Grown-trans a b = record {
  messages = λ m i. b.messages m (a.messages m i);
  acks = λ id h. b.acks id (a.acks id h);
}

Updates-Grown : (id : String) (q q' : Queue) → Updates id q q' → Grown q q'
unfolding is_acked
Updates-Grown id q q' u =
    let (m, a, d) = Updates-keep id q q' u in
    record { messages = λ x i. rw (m) i; acks = λ x h. rw (a) h }

ack-Grown : (id : String) (q : Queue) → Grown q (Memory.ack_video_job_message id q)
unfolding Memory.ack_video_job_message is_acked
ack-Grown id q = record { messages = λ m i. i; acks = λ x h. ground (arith, h) }

dlq-Grown :
    (message : QueuedVideoJobMessage) (code text : String) (q : Queue)
    → Grown q (Memory.move_video_job_message_to_dlq message code text q)
unfolding Memory.move_video_job_message_to_dlq Memory.ack_video_job_message is_acked
dlq-Grown message code text q = record { messages = λ m i. i; acks = λ x h. ground (arith, h) }

In-front {ℓ} : {A : Type ℓ} (a : A) (xs ys : List A) → In a xs → In a (xs ++ ys)
In-front a [] ys i = elim i [ ]
In-front a (x ∷ xs) ys (inl e) = inl e
In-front a (x ∷ xs) ys (inr i) = inr (In-front a xs ys i)

requeue-Grown :
    (dates : DateText) (id : String) (q : Queue) → Grown q (Memory.requeue_video_job dates id q).1
unfolding Memory.requeue_video_job Memory.append_message is_acked
requeue-Grown dates id q = elim (Option-cases (lookup id q.jobs)) [
  | inl none_there ↦ rw (none_there, Memory.requeue_video_job) (same-Grown q)
  | inr (job, found) ↦
      rw (found, Memory.requeue_video_job)
        (record { messages = λ m i. In-front m q.messages _ i; acks = λ x h. h })
]

module _ {E : Type 0} (dates : DateText) (float : FloatOps) (settings : Settings)
    (s : Services E) where
  after_requeue-Grown :
      (message : QueuedVideoJobMessage) (w : World E) (r : Outcome (Unit {0}) × Queue)
      → Grown w.queue r.1
      → Grown w.queue (after_requeue dates float settings s message w r).1.queue
  after_requeue-Grown message w (ok _, q) g = Grown-trans g (ack-Grown message.message_id q)
  after_requeue-Grown message w (raised x, q) g = g

  settle-Grown :
      (message : QueuedVideoJobMessage) (job : VideoJob) (r : Processed × World E)
      → Grown r.1.queue (settle dates float settings s message job r).1.queue
  unfolding settle
  settle-Grown message job (finished, w) = ack-Grown message.message_id w.queue
  settle-Grown message job (crashed x, w) = same-Grown w.queue
  settle-Grown message job (failed f, w) = elim (Bool-cases f.retryable) [
    | inl retry ↦
        rw (retry) (after_requeue-Grown message w _ (requeue-Grown dates job.job_id w.queue))
    | inr over ↦ rw (over) (dlq-Grown message f.error_code f.error_message w.queue)
  ]

  handle_message-Grown :
      (message : QueuedVideoJobMessage) (w : World E)
      → IsValid w.queue
      → Grown w.queue (handle_message dates float settings s message w).1.queue
  unfolding handle_message Memory.get_job_by_id
  handle_message-Grown message w v = elim (Bool-cases (str_eq message.job_id "")) [
    | inl blank ↦ rw (blank) (dlq-Grown message _ _ w.queue)
    | inr named ↦ elim (Option-cases (lookup message.job_id w.queue.jobs)) [
      | inl missing ↦ rw (named, missing) (dlq-Grown message _ _ w.queue)
      | inr (job, found) ↦
          let own = v.keyed message.job_id job found in
          let (u, _) =
            process_lem float settings s job job w v
              (subst (λ k. lookup k w.queue.jobs ≡ some job) (sym own) found) in
          rw (named, found)
            (Grown-trans (Updates-Grown job.job_id _ _ u)
              (settle-Grown message job (process float settings s job w)))
    ]
  ]

-- The messages that were handled, from the queue `q`.
abbrev pub Handled :
    {E : Type 0} → List QueuedVideoJobMessage → Queue → Outcome (Unit {0}) × World E → Type 0
Handled ms q (ok _, w) =
    IsValid w.queue
    × Grown q w.queue
    × ((m : QueuedVideoJobMessage) → In m ms → is_acked w.queue m.message_id ≡ true)
Handled ms q (raised x, w) = IsValid w.queue × Grown q w.queue

-- What a round leaves behind: with the number of the messages if it returns.
abbrev pub Round : {E : Type 0} → List QueuedVideoJobMessage → Queue → Outcome ℕ × World E → Type 0
Round ms q (ok n, w) =
    (n ≡ length ms)
    × IsValid w.queue
    × Grown q w.queue
    × ((m : QueuedVideoJobMessage) → In m ms → is_acked w.queue m.message_id ≡ true)
Round ms q (raised x, w) = IsValid w.queue × Grown q w.queue

In-take {ℓ} : {A : Type ℓ} (n : ℕ) (a : A) (xs : List A) → In a (take n xs) → In a xs
In-take zero a xs i = elim i [ ]
In-take (suc n) a [] i = elim i [ ]
In-take (suc n) a (x ∷ xs) (inl e) = inl e
In-take (suc n) a (x ∷ xs) (inr i) = inr (In-take n a xs i)

either_In {ℓ} :
    {A : Type ℓ} (a x : A) (xs ys : List A) → (In a ys → In a xs) → In a (x ∷ ys) → In a (x ∷ xs)
either_In a x xs ys h (inl e) = inl e
either_In a x xs ys h (inr i) = inr (h i)

In-select {ℓ} : {A : Type ℓ} (p : A → Bool) (a : A) (xs : List A) → In a (select p xs) → In a xs
In-select p a [] i = elim i [ ]
In-select p a (x ∷ xs) i = elim (Bool-cases (p x)) [
  | inl here ↦ either_In a x xs (select p xs) (In-select p a xs) (rw here at i)
  | inr skipped ↦ inr (In-select p a xs (rw skipped at i))
]

read-In :
    (n : ℕ) (q : Queue) (m : QueuedVideoJobMessage)
    → In m (Memory.read_video_job_messages n q)
    → In m q.messages
unfolding Memory.read_video_job_messages
read-In n q m i =
    In-select (λ (x : QueuedVideoJobMessage). not (is_acked q x.message_id)) m q.messages
      (In-take n m _ i)

-- The handling of the rest, after a message that was acknowledged.
later :
    {E : Type 0} (m : QueuedVideoJobMessage) (ms : List QueuedVideoJobMessage) (q : Queue)
    (w : World E) (r : Outcome (Unit {0}) × World E)
    → is_acked w.queue m.message_id ≡ true
    → Grown q w.queue
    → Handled ms w.queue r
    → Handled (m ∷ ms) q r
later m ms q w (raised x, w') done g (v, g') = (v, Grown-trans g g')
later m ms q w (ok _, w') done g (v, g', a) = (
  v,
  Grown-trans g g',
  λ x i. elim i [
    | inl e ↦
        subst (λ (y : QueuedVideoJobMessage). is_acked w'.queue y.message_id ≡ true) e
          (g'.acks m.message_id done)
    | inr j ↦ a x j
  ],
)

module _ {E : Type 0} (dates : DateText) (float : FloatOps) (settings : Settings)
    (s : Services E) where
  then_messages-Handled :
      (m : QueuedVideoJobMessage) (ms : List QueuedVideoJobMessage) (q : Queue)
      (r : Outcome (Unit {0}) × World E)
      → Delivered settings m q r
      → Grown q r.1.queue
      → ((w : World E)
          → IsValid w.queue
          → Grown q w.queue
          → Handled ms w.queue (handle_messages dates float settings s ms w))
      → Handled (m ∷ ms) q (
          then_messages dates float settings s r (λ w. handle_messages dates float settings s ms w))
  then_messages-Handled m ms q (raised x, w) (v, _, _, _) g rest = (v, g)
  then_messages-Handled m ms q (ok _, w) (v, done, _) g rest = later m ms q w _ done g (rest w v g)

  handle_messages-Handled :
      (ms : List QueuedVideoJobMessage) (w : World E)
      → IsValid w.queue
      → ((m : QueuedVideoJobMessage) → In m ms → In m w.queue.messages)
      → Handled ms w.queue (handle_messages dates float settings s ms w)
  unfolding handle_messages
  handle_messages-Handled [] w v h = (v, same-Grown w.queue, λ m i. elim i [ ])
  handle_messages-Handled (m ∷ ms) w v h =
      then_messages-Handled m ms w.queue (handle_message dates float settings s m w)
        (handle_message_lem dates float settings s m w v (h m (inl refl)))
        (handle_message-Grown dates float settings s m w v)
        (λ w' v' g. handle_messages-Handled ms w' v' (λ x i. g.messages x (h x (inr i))))

  counted-Round :
      (ms : List QueuedVideoJobMessage) (q : Queue) (r : Outcome (Unit {0}) × World E)
      → Handled ms q r
      → Round ms q (counted dates float settings s (length ms) r)
  counted-Round ms q (ok _, w) (v, g, a) = (refl, v, g, a)
  counted-Round ms q (raised x, w) h = h

  -- Whatever the services do, a round on a valid queue leaves a valid queue, loses no message, and keeps
  -- what is acknowledged. If it returns, it returns the number of the messages that were read, and all of
  -- them are acknowledged.
  pub run_once_lem :
      (read_count : ℕ) (w : World E)
      → IsValid w.queue
      → Round
          (Memory.read_video_job_messages read_count w.queue)
          w.queue
          (run_once dates float settings s read_count w)
  unfolding run_once
  run_once_lem read_count w v =
      let ms = Memory.read_video_job_messages read_count w.queue in
      counted-Round ms w.queue (handle_messages dates float settings s ms w)
        (handle_messages-Handled ms w v (read-In read_count w.queue))
