-- ===== src/Finalization.antt =====
-- app/services/video_detection_service.py, app/services/storage_move_service.py,
-- app/clients/storj_interface.py and the rows of app/schemas: how a classification is made final. The HTTP
-- client, the transaction and the buffers act on an environment `E`; JSON texts (`dumps`) and the dumps of
-- the rows are parameters.
pub mod Order
use Prim.Native.String.{◌++◌ as text_append}
use Prim.Native.Char.{code}
use ansuman_nsfw_detection_s.Base.{
  ℕ, String, Bool, ◌&&◌, not, Option, none, some, List, [], ◌∷◌, map, length, or_else, ◌==◌,
  if◌then◌else◌,
}
use ansuman_nsfw_detection_s.Base.Int.{ℤ}
use ansuman_nsfw_detection_s.Constants.{classified, value}
use ansuman_nsfw_detection_s.Float.{Double}
use ansuman_nsfw_detection_s.Settings.{Settings, truthy}
use ansuman_nsfw_detection_s.Errors.{PyException, Outcome, ok, raised, app}
use ansuman_nsfw_detection_s.Rows.{
  VideoNsfwDetectionRow, StorjMoveResponse, StorageActionRow, runtime_nsfw_payload,
  to_clickhouse_video_row, to_clickhouse_storage_action_row,
}
use ansuman_nsfw_detection_s.Json.{
  Json, Items, Fields, end, field, string, bool, float, array, object,
}
use ansuman_nsfw_detection_s.Policy.{score}
use ansuman_nsfw_detection_s.Models.{
  VideoJob, VideoMetadata, FrameModerationResult, VideoModerationResult, StorageAction, Datetime,
}
use ansuman_nsfw_detection_s.Legacy.{LegacyNsfwAggRow, to_legacy_nsfw_agg}

-- `url.rstrip("/")`
abbrev snoc_unless_slash : String → String → String
snoc_unless_slash String.[] rest = rest
snoc_unless_slash (String.◌∷◌ c s) String.[] =
    if code c == 47 then String.[] else String.◌∷◌ c String.[]
snoc_unless_slash (String.◌∷◌ c s) (String.◌∷◌ d t) = String.◌∷◌ c (String.◌∷◌ d t)

unfoldable pub rstrip_slash : String → String
rstrip_slash String.[] = String.[]
rstrip_slash (String.◌∷◌ c s) = snoc_unless_slash (String.◌∷◌ c s) (rstrip_slash s)

abbrev pub move_url : String → String
move_url url = text_append (rstrip_slash url) "/move-to-nsfw"

-- The body of the request.
abbrev pub move_body : String → String → Fields
move_body publisher_user_id video_id =
    field "publisher_user_id" (string publisher_user_id) (field "video_id" (string video_id) end)

-- What the finalisation is given: `post` is the HTTP request up to `raise_for_status`.
pub record FinalServices (E : Type 0) : Type 0 where
  pub now : E → Datetime
  pub uuid4 : E → String × E
  pub dumps : Json → String
  pub post : String → Fields → String → E → Outcome StorjMoveResponse × E
  -- the transaction: it begins, takes statements, and ends by the exception of its body, if any
  pub enter : E → Outcome (Unit {0}) × E
  pub exit : Option PyException → E → Outcome (Unit {0}) × E
  pub insert_frame_results :
      VideoJob
      → VideoModerationResult
      → List FrameModerationResult
      → Settings
      → E
      → Outcome (Unit {0}) × E
  pub insert_final_result : VideoModerationResult → E → Outcome (Unit {0}) × E
  pub insert_storage_action : StorageAction → E → Outcome (Unit {0}) × E
  pub mark_job_classified : String → E → Outcome (Unit {0}) × E
  -- the buffers, and the store of verdicts
  pub dump_video_row : VideoNsfwDetectionRow → Fields
  pub dump_legacy_row : LegacyNsfwAggRow → Fields
  pub dump_action_row : StorageActionRow → Fields
  pub push_json : String → Fields → E → Outcome (Unit {0}) × E
  pub write_result : String → Fields → E → Outcome (Unit {0}) × E

module _ {E : Type 0} where
  abbrev pub bound : {A B : Type 0} → Outcome A × E → (A → E → Outcome B × E) → Outcome B × E
  bound (ok a, e) k = k a e
  bound (raised x, e) k = (raised x, e)

  infixl 5 ◌>>=◌ ◌>>◌
  abbrev pub ◌>>=◌ :
      {A B : Type 0} → (E → Outcome A × E) → (A → E → Outcome B × E) → E → Outcome B × E
  ◌>>=◌ m k e = bound (m e) k

  abbrev pub ◌>>◌ : {A B : Type 0} → (E → Outcome A × E) → (E → Outcome B × E) → E → Outcome B × E
  m >> k = m >>= λ _. k

module _ {E : Type 0} (settings : Settings) (s : FinalServices E) where
  abbrev pub done : {A : Type 0} → A → E → Outcome A × E
  done a e = (ok a, e)

  abbrev pub configured_move :
      Option String → Option String → String → String → E → Outcome StorjMoveResponse × E
  configured_move (some url) (some token) publisher_user_id video_id e =
      s.post (move_url url) (move_body publisher_user_id video_id) (text_append "Bearer " token) e
  configured_move _ _ publisher_user_id video_id e = (
    raised (
        app (record {
          code = "storj_not_configured";
          message = "Storj interface is not configured";
          status_code = 503;
        })),
    e,
  )

  -- `StorjInterfaceClient.move_to_nsfw`
  unfoldable pub move_to_nsfw : String → String → E → Outcome StorjMoveResponse × E
  unfolding rstrip_slash
  move_to_nsfw publisher_user_id video_id e =
      if truthy settings.storj_interface_url && truthy settings.storj_interface_token
      then configured_move settings.storj_interface_url settings.storj_interface_token
          publisher_user_id video_id e
      else configured_move none none publisher_user_id video_id e

  abbrev pub some_response : StorjMoveResponse → E → Outcome (Option StorjMoveResponse) × E
  some_response r = done (some r)

  -- `StorageMoveService.move_if_required`
  unfoldable pub move_if_required :
      VideoModerationResult → String → E → Outcome (Option StorjMoveResponse) × E
  unfolding move_to_nsfw
  move_if_required result publisher_user_id =
      if not result.move_required
      then done none
      else (move_to_nsfw publisher_user_id result.video_id >>= some_response)

  abbrev request_url : Option String → String
  request_url none = ""
  request_url (some url) = if truthy (some url) then move_url url else ""

  -- `_storage_action`
  unfoldable pub storage_action :
      VideoJob
      → VideoModerationResult
      → Option StorjMoveResponse
      → E
      → Outcome (Option StorageAction) × E
  unfolding rstrip_slash
  storage_action job result none e = (ok none, e)
  storage_action job result (some response) e =
      let now = s.now e in
      let (id, e') = s.uuid4 e in
      (
        ok (
            some (record {
              action_id =
                  text_append "storage-action:" (text_append job.job_id (text_append ":" id));
              job_id = job.job_id;
              video_id = job.video_id;
              publisher_user_id = job.publisher_user_id;
              action_type = "move_to_nsfw";
              threshold = result.move_threshold;
              final_score = result.final_score;
              request_url = request_url settings.storj_interface_url;
              request_body = move_body job.publisher_user_id job.video_id;
              response_status = some response.status_code;
              response_body = some response.body;
              status = "succeeded";
              created_at = now;
              completed_at = some now;
            })),
        e',
      )

  -- Only if there is a storage action.
  abbrev pub for_action :
      Option StorageAction
      → (StorageAction → E → Outcome (Unit {0}) × E)
      → E
      → Outcome (Unit {0}) × E
  for_action none k = done tt
  for_action (some action) k = k action

  abbrev pub statements :
      VideoJob
      → VideoModerationResult
      → List FrameModerationResult
      → Option StorageAction
      → E
      → Outcome (Unit {0}) × E
  statements job result frames action = do
    s.insert_frame_results job result frames settings
    s.insert_final_result result
    for_action action s.insert_storage_action
    s.mark_job_classified job.job_id

  abbrev pub reraised : PyException → Outcome (Unit {0}) × E → Outcome (Unit {0}) × E
  reraised x (ok _, e) = (raised x, e)
  reraised x (raised y, e) = (raised y, e)

  abbrev pub closed : Outcome (Unit {0}) × E → Outcome (Unit {0}) × E
  closed (ok _, e) = s.exit none e
  closed (raised x, e) = reraised x (s.exit (some x) e)

  -- `async with self._unit_of_work_factory() as unit_of_work`
  unfoldable pub commit :
      VideoJob
      → VideoModerationResult
      → List FrameModerationResult
      → Option StorageAction
      → E
      → Outcome (Unit {0}) × E
  commit job result frames action = s.enter >> (λ e. closed (statements job result frames action e))

  -- `_publish_after_commit`
  unfoldable pub publish_after_commit :
      VideoJob
      → VideoMetadata
      → List FrameModerationResult
      → VideoModerationResult
      → Option StorageAction
      → E
      → Outcome (Unit {0}) × E
  unfolding to_clickhouse_video_row to_clickhouse_storage_action_row to_legacy_nsfw_agg
      runtime_nsfw_payload
  publish_after_commit job metadata frames result action = do
    (λ e.
        s.push_json settings.clickhouse_buffer_video_results_key
          (s.dump_video_row
            (to_clickhouse_video_row s.dumps (s.now e) job metadata frames result settings action))
          e)
    s.push_json settings.clickhouse_buffer_legacy_key
        (s.dump_legacy_row (to_legacy_nsfw_agg result none))
    for_action action (λ a e.
        s.push_json settings.clickhouse_buffer_storage_actions_key
          (s.dump_action_row (to_clickhouse_storage_action_row s.dumps (s.now e) a)) e)
    s.write_result job.video_id (runtime_nsfw_payload result)

  -- `finalize_classification`, with the storage action of its result.
  unfoldable pub finalize_classification :
      VideoJob
      → VideoMetadata
      → List FrameModerationResult
      → VideoModerationResult
      → E
      → Outcome (Option StorageAction) × E
  unfolding move_if_required storage_action commit publish_after_commit
  finalize_classification job metadata frames result = do
    response ← move_if_required result job.publisher_user_id
    action ← storage_action job result response
    commit job result frames action
    publish_after_commit job metadata frames result action
    done action
