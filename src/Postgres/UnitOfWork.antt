-- ===== src/Postgres/UnitOfWork.antt =====
-- app/repositories/postgres/video_finalization.py, `PostgresFinalResultUnitOfWork`: the statements of a
-- verdict under one transaction of one session.
pub mod Closing
use ansuman_nsfw_detection_s.Base.{
  String, Bool, true, false, Option, none, some, List, or_else, if◌then◌else◌,
}
use ansuman_nsfw_detection_s.Errors.{Outcome, ok, raised, other, PyException}
use ansuman_nsfw_detection_s.Effects.{M, ◌>>=◌, ◌>>◌, pure, raise, finally}
use ansuman_nsfw_detection_s.Settings.{Settings}
use ansuman_nsfw_detection_s.Models.{
  VideoJob, FrameModerationResult, VideoModerationResult, StorageAction,
}
use ansuman_nsfw_detection_s.Postgres.Database.{Session}
use ansuman_nsfw_detection_s.Postgres.Frames.{Origin}
use ansuman_nsfw_detection_s.Postgres.Frames
use ansuman_nsfw_detection_s.Postgres.Results
use ansuman_nsfw_detection_s.Postgres.Jobs.{mark_classified}

-- The context of a session and that of `session.begin()`; what leaves one is told the exception, if any.
pub record Contexts (E : Type 0) : Type 0 where
  pub session_enter : M E (Unit {0})
  pub session_exit : Option PyException → M E (Unit {0})
  pub begin_enter : M E (Unit {0})
  pub begin_exit : Option PyException → M E (Unit {0})

-- Which of its attributes are not None, and the world.
pub record UnitOfWork (E : Type 0) : Type 0 where
  pub has_session_context : Bool
  pub has_transaction_context : Bool
  pub has_session : Bool
  pub world : E

abbrev pub new_unit_of_work : {E : Type 0} → E → UnitOfWork E
new_unit_of_work e = record {
  has_session_context = false;
  has_transaction_context = false;
  has_session = false;
  world = e;
}

-- A call on the world.
abbrev pub on_world : {E A : Type 0} → M E A → M (UnitOfWork E) A
on_world m u = let (out, e) = m u.world in (out, record u { world = e })

abbrev pub set : {E : Type 0} → (UnitOfWork E → UnitOfWork E) → M (UnitOfWork E) (Unit {0})
set f u = (ok tt, f u)

abbrev pub only_if : {E : Type 0} → Bool → M E (Unit {0}) → M E (Unit {0})
only_if b m = if b then m else pure tt

module _ {E : Type 0} (contexts : Contexts E) where
  -- `__aenter__`
  unfoldable pub enter : M (UnitOfWork E) (Unit {0})
  enter = do
    set (λ u. record u { has_session_context = true })
    on_world contexts.session_enter
    set (λ u. record u { has_session = true; has_transaction_context = true })
    on_world contexts.begin_enter

  -- `__aexit__`
  unfoldable pub exit : Option PyException → M (UnitOfWork E) (Unit {0})
  exit x u =
      finally (only_if u.has_transaction_context (on_world (contexts.begin_exit x)))
        (only_if u.has_session_context (on_world (contexts.session_exit x))) u

module _ {E : Type 0} (session : Session E) where
  -- `_required_session`, and what is then called on the session.
  unfoldable pub with_session : M E (Unit {0}) → M (UnitOfWork E) (Unit {0})
  with_session m u =
      if u.has_session
      then on_world m u
      else raise (other "RuntimeError" "unit of work has not been entered") u

  unfoldable pub insert_frame_results :
      VideoJob
      → VideoModerationResult
      → List FrameModerationResult
      → Settings
      → M (UnitOfWork E) (Unit {0})
  unfolding with_session
  insert_frame_results job result frames settings = with_session (
      Frames.insert_frame_results session
        (record {
          job_id = job.job_id;
          video_id = job.video_id;
          prompt_version = result.prompt_version;
          model_provider = settings.model_provider;
          model_name = or_else settings.model_name "";
          model_version = settings.model_version;
        })
        frames)

  unfoldable pub insert_final_result : VideoModerationResult → M (UnitOfWork E) (Unit {0})
  unfolding with_session
  insert_final_result result = with_session (Results.insert_final_result session result)

  unfoldable pub insert_storage_action : StorageAction → M (UnitOfWork E) (Unit {0})
  unfolding with_session
  insert_storage_action action = with_session (Frames.insert_storage_action session action)

  unfoldable pub mark_job_classified : String → M (UnitOfWork E) (Unit {0})
  unfolding with_session
  mark_job_classified job_id = with_session (mark_classified session job_id)
