-- ===== src/Queue/Memory/Pending.antt =====
-- The messages that a reader still gets.
use ansuman_nsfw_detection_s.Base.{
  ℕ, zero, suc, ◌+◌, ◌≤◌, ◌≡◌, refl, sym, ap, ◌∙◌, inl, inr, String, Bool, false, not, some, List,
  [], ◌∷◌, ◌++◌, str_eq, eq_iff, arith, length, take, any_at, select, Bool-cases, if◌then◌else◌,
}
use ansuman_nsfw_detection_s.Base.Dict.{lookup, string_eq}
use ansuman_nsfw_detection_s.Base.Text.{str, str-injective}
use ansuman_nsfw_detection_s.Models.{VideoJob}
use ansuman_nsfw_detection_s.Errors.{ok}
use ansuman_nsfw_detection_s.Queue.Job.{DateText}
use ansuman_nsfw_detection_s.Queue.Memory.{
  Queue, QueuedVideoJobMessage, is_acked, ack_video_job_message, new_message, append_message,
  requeue_video_job,
}
use ansuman_nsfw_detection_s.Queue.Memory.Invariant.{IsValid}

module _ {A : Type 0} where
  select-append : (p : A → Bool) (xs ys : List A) → select p (xs ++ ys) ≡ select p xs ++ select p ys
  select-append p [] ys = refl
  select-append p (x ∷ xs) ys = ground (arith, select-append p xs ys)

  -- What passes two tests in turn passes both at once.
  select-narrow :
      (p q r : A → Bool) (xs : List A)
      → ((a : A) → q a ≡ (if r a then p a else false))
      → select q xs ≡ select r (select p xs)
  select-narrow p q r [] h = refl
  select-narrow p q r (x ∷ xs) h = ground (arith, h x, select-narrow p q r xs h)

  take_all : (n : ℕ) (xs : List A) → length xs ≤ n → take n xs ≡ xs
  take_all zero [] h = refl
  take_all zero (x ∷ xs) h = elim h [ ]
  take_all (suc n) [] h = refl
  take_all (suc n) (x ∷ xs) h = ap (λ r. x ∷ r) (take_all n xs (omega arith))

-- The messages that are not acknowledged, in the order of the queue.
abbrev pub pending : Queue → List QueuedVideoJobMessage
pending q = select (λ (m : QueuedVideoJobMessage). not (is_acked q m.message_id)) q.messages

-- An acknowledged message is taken out of what is pending, and no other.
pub pending-ack :
    (id : String) (q : Queue)
    → pending (ack_video_job_message id q)
      ≡ select (λ (m : QueuedVideoJobMessage). not (str_eq id m.message_id)) (pending q)
unfolding ack_video_job_message is_acked
pending-ack id q = select-narrow _ _ _ q.messages (λ m. ground arith)

-- The id of a new message is not acknowledged yet.
pub not_acked-new :
    (dates : DateText) (job : VideoJob) (q : Queue)
    → IsValid q
    → is_acked q (new_message dates job q).message_id ≡ false
unfolding is_acked new_message
not_acked-new dates job q v = elim (Bool-cases (is_acked q (new_message dates job q).message_id)) [
  | inl e ↦
      let (a, i, same) =
        any_at (λ a. str_eq a (str (length q.messages + 1))) q.acked_message_ids e in
      let (n, named, le) = v.acked a i in
      let equal : n ≡ length q.messages + 1 =
        str-injective n (length q.messages + 1) (sym named ∙ (eq_iff a _).0 same) in
      absurd (omega arith)
  | inr e ↦ e
]

-- On a valid queue a message that is appended is pending, behind those that are.
pub pending-append_message :
    (dates : DateText) (job : VideoJob) (q : Queue)
    → IsValid q
    → pending (append_message dates job q) ≡ pending q ++ new_message dates job q ∷ []
unfolding append_message is_acked
pending-append_message dates job q v =
    let new = new_message dates job q in
    select-append (λ (m : QueuedVideoJobMessage). not (is_acked q m.message_id)) q.messages
      (new ∷ [])
    ∙ ap (λ r. pending q ++ r) (rw (not_acked-new dates job q v) refl)

-- A stored job that is requeued has a new message.
pub requeue-append_message :
    (dates : DateText) (id : String) (job : VideoJob) (q : Queue)
    → lookup id q.jobs ≡ some job
    → requeue_video_job dates id q ≡ (ok tt, append_message dates job q)
unfolding requeue_video_job
requeue-append_message dates id job q found = rw (found, requeue_video_job)
