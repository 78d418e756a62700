-- ===== src/Postgres/Frames.antt =====
-- app/repositories/postgres/frame_result_repository.py and storage_action_repository.py.
pub mod Checks
use Prim.Native.String.{◌++◌ as text_append}
use ansuman_nsfw_detection_s.Base.{ℕ, String, Option, none, some, List, [], ◌∷◌}
use ansuman_nsfw_detection_s.Base.Dict.{lookup, string_eq}
use ansuman_nsfw_detection_s.Base.Text.{str}
use ansuman_nsfw_detection_s.Errors
use ansuman_nsfw_detection_s.Errors.{Outcome, ok, raised, other, ◌>>=◌}
use ansuman_nsfw_detection_s.Effects
use ansuman_nsfw_detection_s.Effects.{M, lift}
use ansuman_nsfw_detection_s.Policy.{Scores}
use ansuman_nsfw_detection_s.Models.{FrameModerationResult, StorageAction}
use ansuman_nsfw_detection_s.Postgres.Database.{FrameRow, insert_frames, insert_action, Session}

-- What the rows of a job's frames have in common.
pub record Origin : Type 0 where
  pub job_id : String
  pub video_id : String
  pub prompt_version : String
  pub model_provider : String
  pub model_name : String
  pub model_version : Option String

unfoldable pub frame_id : String → ℕ → String
frame_id job_id index = text_append job_id (text_append ":" (str index))

-- categories[category]
abbrev found : String → Option ℕ → Outcome ℕ
found category none = raised (other "KeyError" category)
found category (some n) = ok n

unfoldable pub severity_of : Scores → String → Outcome ℕ
severity_of categories category = found category (lookup category categories)

unfoldable pub frame_result_to_row : Origin → FrameModerationResult → Outcome FrameRow
unfolding severity_of frame_id
frame_result_to_row origin frame = do
  safe ← severity_of frame.categories "safe"
  suggestive ← severity_of frame.categories "suggestive"
  nudity ← severity_of frame.categories "nudity"
  porn ← severity_of frame.categories "porn"
  gore ← severity_of frame.categories "gore"
  violence ← severity_of frame.categories "violence"
  self_harm ← severity_of frame.categories "self_harm"
  hate_or_extremism ← severity_of frame.categories "hate_or_extremism"
  drugs ← severity_of frame.categories "drugs"
  unknown ← severity_of frame.categories "unknown"
  sexual_minor_content ← severity_of frame.categories "sexual_minor_content"
  ok (record {
    frame_id = frame_id origin.job_id frame.frame_index;
    job_id = origin.job_id;
    video_id = origin.video_id;
    frame_index = frame.frame_index;
    frame_timestamp_seconds = frame.frame_timestamp_seconds;
    frame_hash = none;
    prompt_version = origin.prompt_version;
    model_provider = origin.model_provider;
    model_name = origin.model_name;
    model_version = origin.model_version;
    top_category = frame.top_category;
    is_nsfw = frame.is_nsfw;
    overall_severity = frame.overall_severity;
    safe_severity = safe;
    suggestive_severity = suggestive;
    nudity_severity = nudity;
    porn_severity = porn;
    gore_severity = gore;
    violence_severity = violence;
    self_harm_severity = self_harm;
    hate_or_extremism_severity = hate_or_extremism;
    drugs_severity = drugs;
    unknown_severity = unknown;
    sexual_minor_content_severity = sexual_minor_content;
    reason = frame.reason;
    raw_response = frame.raw_response;
  })

unfoldable pub frame_rows : Origin → List FrameModerationResult → Outcome (List FrameRow)
unfolding frame_result_to_row
frame_rows origin [] = ok []
frame_rows origin (frame ∷ frames) = do
  row ← frame_result_to_row origin frame
  rows ← frame_rows origin frames
  ok (row ∷ rows)

-- `FrameResultRepository.insert_frame_results`
unfoldable pub insert_frame_results :
    {E : Type 0} → Session E → Origin → List FrameModerationResult → M E (Unit {0})
unfolding frame_rows
insert_frame_results session origin [] e = (ok tt, e)
insert_frame_results session origin (frame ∷ frames) e =
    Effects.after (frame_rows origin (frame ∷ frames), e)
      (λ rows. session.execute (insert_frames rows))

-- `StorageActionRepository.insert_storage_action`; the row has the fields of the action.
unfoldable pub insert_storage_action : {E : Type 0} → Session E → StorageAction → M E (Unit {0})
insert_storage_action session action = session.execute (insert_action action)
