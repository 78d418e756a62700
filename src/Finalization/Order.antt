-- ===== src/Finalization/Order.antt =====
-- Nothing is published before the transaction has been committed.
use ansuman_nsfw_detection_s.Base.{
  ◌≡◌, refl, ◌⊎◌, inl, inr, String, ◌&&◌, Option, none, some, List, Bool-cases,
}
use ansuman_nsfw_detection_s.Settings.{Settings, truthy}
use ansuman_nsfw_detection_s.Errors.{PyException, Outcome, ok, raised}
use ansuman_nsfw_detection_s.Json.{Fields}
use ansuman_nsfw_detection_s.Models.{
  VideoJob, VideoMetadata, FrameModerationResult, VideoModerationResult, StorageAction,
}
use ansuman_nsfw_detection_s.Rows.{StorjMoveResponse}
use ansuman_nsfw_detection_s.Finalization.{
  FinalServices, bound, configured_move, statements, closed, reraised, for_action, move_to_nsfw,
  move_if_required, storage_action, commit, finalize_classification,
}

-- A property of the environment that the calls before the publication keep: the move, the ids and the
-- statements of the transaction.
pub record Quiet {E : Type 0} (s : FinalServices E) (Q : E → Type 0) : Type 0 where
  pub uuid4 : (e : E) → Q e → Q (s.uuid4 e).1
  pub post :
      (url : String) (body : Fields) (token : String) (e : E) → Q e → Q (s.post url body token e).1
  pub enter : (e : E) → Q e → Q (s.enter e).1
  pub exit : (x : Option PyException) (e : E) → Q e → Q (s.exit x e).1
  pub frames :
      (job : VideoJob) (r : VideoModerationResult) (fs : List FrameModerationResult)
      (settings : Settings) (e : E)
      → Q e
      → Q (s.insert_frame_results job r fs settings e).1
  pub final : (r : VideoModerationResult) (e : E) → Q e → Q (s.insert_final_result r e).1
  pub action : (a : StorageAction) (e : E) → Q e → Q (s.insert_storage_action a e).1
  pub mark : (id : String) (e : E) → Q e → Q (s.mark_job_classified id e).1

module _ {E : Type 0} (settings : Settings) (s : FinalServices E) (Q : E → Type 0)
    (quiet : Quiet s Q) where
  bound-Q :
      {A B : Type 0} (r : Outcome A × E) (k : A → E → Outcome B × E)
      → Q r.1
      → ((a : A) (e : E) → Q e → Q (k a e).1)
      → Q (bound r k).1
  bound-Q (ok a, e) k q next = next a e q
  bound-Q (raised x, e) k q next = q

  configured_move-Q :
      (url token : Option String) (user video : String) (e : E)
      → Q e
      → Q (configured_move settings s url token user video e).1
  configured_move-Q none token user video e q = q
  configured_move-Q (some url) none user video e q = q
  configured_move-Q (some url) (some token) user video e q = quiet.post _ _ _ e q

  move_to_nsfw-Q : (user video : String) (e : E) → Q e → Q (move_to_nsfw settings s user video e).1
  unfolding move_to_nsfw
  move_to_nsfw-Q user video e q =
      elim (Bool-cases
        (truthy settings.storj_interface_url && truthy settings.storj_interface_token)) [
          | inl set ↦ rw (set) (
              configured_move-Q settings.storj_interface_url settings.storj_interface_token user
                video e q)
          | inr unset ↦ rw (unset) q
        ]

  move_if_required-Q :
      (r : VideoModerationResult) (user : String) (e : E)
      → Q e
      → Q (move_if_required settings s r user e).1
  unfolding move_if_required
  move_if_required-Q r user e q = elim (Bool-cases r.move_required) [
    | inl moved ↦ rw (moved) (
        bound-Q (move_to_nsfw settings s user r.video_id e) _ (move_to_nsfw-Q user r.video_id e q)
          (λ a e' q'. q'))
    | inr stays ↦ rw (stays) q
  ]

  storage_action-Q :
      (job : VideoJob) (r : VideoModerationResult) (response : Option StorjMoveResponse) (e : E)
      → Q e
      → Q (storage_action settings s job r response e).1
  unfolding storage_action
  storage_action-Q job r none e q = q
  storage_action-Q job r (some response) e q = quiet.uuid4 e q

  for_action-Q :
      (action : Option StorageAction) (e : E)
      → Q e
      → Q (for_action settings s action s.insert_storage_action e).1
  for_action-Q none e q = q
  for_action-Q (some a) e q = quiet.action a e q

  reraised-Q :
      (x : PyException) (r : Outcome (Unit {0}) × E) → Q r.1 → Q (reraised settings s x r).1
  reraised-Q x (ok _, e) q = q
  reraised-Q x (raised y, e) q = q

  closed-Q : (r : Outcome (Unit {0}) × E) → Q r.1 → Q (closed settings s r).1
  closed-Q (ok _, e) q = quiet.exit none e q
  closed-Q (raised x, e) q = reraised-Q x (s.exit (some x) e) (quiet.exit (some x) e q)

  module _ (job : VideoJob) (result : VideoModerationResult) (fs : List FrameModerationResult) where
    statements-Q :
        (action : Option StorageAction) (e : E)
        → Q e
        → Q (statements settings s job result fs action e).1
    statements-Q action e q =
        bound-Q (s.insert_frame_results job result fs settings e) _
          (quiet.frames job result fs settings e q)
          (λ _ e1 q1.
            bound-Q (s.insert_final_result result e1) _ (quiet.final result e1 q1) (λ _ e2 q2.
              bound-Q (for_action settings s action s.insert_storage_action e2) _
                (for_action-Q action e2 q2) (λ _ e3 q3. quiet.mark job.job_id e3 q3)))

    commit-Q :
        (action : Option StorageAction) (e : E)
        → Q e
        → Q (commit settings s job result fs action e).1
    unfolding commit
    commit-Q action e q = bound-Q (s.enter e) _ (quiet.enter e q) (λ _ e1 q1.
        closed-Q (statements settings s job result fs action e1) (statements-Q action e1 q1))

    -- The transaction went well, from an environment in which nothing was published.
    abbrev pub Committed : Type 0
    Committed =
        (action : Option StorageAction) × (before : E) × (after : E) × Q before
        × (commit settings s job result fs action before ≡ (ok tt, after))

    abbrev pub Ordered : {A : Type 0} → Outcome A × E → Type 0
    Ordered (ok a, e) = Committed
    Ordered (raised x, e) = Q e ⊎ Committed

    Committed-Ordered : {A : Type 0} → Committed → (out : Outcome A × E) → Ordered out
    Committed-Ordered c (ok a, e) = c
    Committed-Ordered c (raised x, e) = inr c

    bound-Ordered :
        {A B : Type 0} (r : Outcome A × E) (k : A → E → Outcome B × E)
        → Q r.1
        → ((a : A) (e : E) → Q e → Ordered (k a e))
        → Ordered (bound r k)
    bound-Ordered (ok a, e) k q next = next a e q
    bound-Ordered (raised x, e) k q next = inl q

    committed-Ordered :
        {B : Type 0} (action : Option StorageAction) (e : E) (r : Outcome (Unit {0}) × E)
        (k : Unit {0} → E → Outcome B × E)
        → Q e
        → Q r.1
        → commit settings s job result fs action e ≡ r
        → Ordered (bound r k)
    committed-Ordered action e (ok _, e') k q q' went =
        Committed-Ordered (action, e, e', q, went) (k tt e')
    committed-Ordered action e (raised x, e') k q q' went = inl q'

    -- Take any property that the calls before the publication keep, such as that nothing has been pushed
    -- to the buffers for this job. If it holds at first and the finalisation returns, the transaction was
    -- committed from an environment where it still held; if the finalisation raises, the property holds at
    -- the end, or the transaction was committed before that.
    pub finalize_classification_order :
        (metadata : VideoMetadata) (e : E)
        → Q e
        → Ordered (finalize_classification settings s job metadata fs result e)
    unfolding finalize_classification
    finalize_classification_order metadata e q =
        bound-Ordered (move_if_required settings s result job.publisher_user_id e) _
          (move_if_required-Q result job.publisher_user_id e q)
          (λ response e1 q1.
            bound-Ordered (storage_action settings s job result response e1) _
              (storage_action-Q job result response e1 q1)
              (λ action e2 q2.
                committed-Ordered action e2 (commit settings s job result fs action e2) _ q2
                  (commit-Q action e2 q2) refl))
