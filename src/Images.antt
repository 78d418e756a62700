-- ===== src/Images.antt =====
-- app/services/image_detection_service.py: images by URL and as base64. The HTTP client, the temporary
-- file, Sentry and the pauses act on an environment `E`; `base64.b64decode` is a parameter, with None for
-- its error. The bytes of an image are a list.
pub mod Errors
use ansuman_nsfw_detection_s.Base.{
  ℕ, zero, suc, ◌+◌, String, Bool, true, false, Option, none, some, List, [], ◌∷◌, str_eq, length,
  leb, ltb, ◌==◌, if◌then◌else◌,
}
use ansuman_nsfw_detection_s.Base.Int.{ℤ, pos, ltb_ℤ}
use ansuman_nsfw_detection_s.Base.Text.{strip}
use ansuman_nsfw_detection_s.Errors.Codes
use ansuman_nsfw_detection_s.Errors.{
  PyException, app, http_status, timeout, request, other, max_connections, redis_connection,
  redis_timeout, Outcome, ok, raised, bad_request,
}
use ansuman_nsfw_detection_s.Float.{Double, FloatOps}
use ansuman_nsfw_detection_s.Settings.{Settings}
use ansuman_nsfw_detection_s.Policy.{
  compute_overall_severity, compute_is_nsfw, ModerationDetectResponse,
}
use ansuman_nsfw_detection_s.Models.{FrameModerationResult}
use ansuman_nsfw_detection_s.Frames.{ExtractedFrame}
use ansuman_nsfw_detection_s.Gpu.{
  GpuModerationService, max_attempts, delay_before_retry, moderate_image_generation,
}

pub record ImageServices (E : Type 0) : Type 0 where
  -- the GET request up to `raise_for_status`, and its body
  pub get : String → E → Outcome (List ℕ) × E
  pub close : E → E
  pub owns_client : Bool
  pub capture_image_download_failure : PyException → String → ℕ → ℕ → E → E
  pub sleep : Double → E → E
  pub b64decode : String → Option (List ℕ)
  -- the file "image.jpg" in a new temporary directory, and the removal of the directory
  pub write_image : List ℕ → E → Outcome String × E
  pub remove_dir : E → E
  pub gpu : Option (GpuModerationService E)

abbrev pub download_failed : PyException
download_failed = app (bad_request Codes.image_download_failed "image_url could not be downloaded")

-- The error after the last attempt, by the last one's.
unfoldable pub last_failure : Option PyException → PyException
last_failure (some (timeout name text)) = app (record {
  code = Codes.image_download_timeout;
  message = "image_url download timed out";
  status_code = 504;
})
last_failure (some (http_status status text)) =
    if leb 500 status
    then app (record {
      code = Codes.image_download_upstream_error;
      message = "image_url host returned an upstream error";
      status_code = 502;
    })
    else download_failed
last_failure _ = download_failed

-- `_normalize_prompt`
unfoldable pub normalize_prompt : Option String → Option String
unfolding strip
normalize_prompt none = none
normalize_prompt (some prompt) = if str_eq (strip prompt) "" then none else some (strip prompt)

abbrev response_of : FrameModerationResult → Option ℕ → Outcome ModerationDetectResponse
response_of result none = raised (other "ValueError" result.top_category)
response_of result (some severity) = ok (record {
  top_category = result.top_category;
  is_nsfw = compute_is_nsfw result.categories;
  overall_severity = severity;
  categories = result.categories;
  reason = result.reason;
})

-- `_frame_to_detect_response`; the response's own validators hold of what it is built from.
unfoldable pub frame_to_detect_response : FrameModerationResult → Outcome ModerationDetectResponse
unfolding compute_is_nsfw compute_overall_severity
frame_to_detect_response result =
    response_of result (compute_overall_severity result.top_category result.categories)

module _ {E : Type 0} (float : FloatOps) (settings : Settings) (s : ImageServices E)
    (image_url : String) where
  abbrev slept : Option Double → E → E
  slept none e = e
  slept (some seconds) e = s.sleep seconds e

  abbrev reported : PyException → ℕ → ℕ → E → E
  reported x attempt attempts e = s.capture_image_download_failure x image_url attempt attempts e

  -- The report and the pause.
  abbrev paused : PyException → ℕ → ℕ → E → E
  paused x attempt attempts e =
      slept
        (delay_before_retry float attempt attempts settings.image_download_retry_base_delay_seconds)
        (reported x attempt attempts e)

  -- The `except` clauses, by the class of the exception.
  unfoldable pub after_get :
      ℕ → ℕ → Outcome (List ℕ) × E → (PyException → E → Outcome (List ℕ) × E) → Outcome (List ℕ) × E
  unfolding delay_before_retry
  after_get attempt attempts (ok bytes, e) again = (ok bytes, e)
  after_get attempt attempts (raised (timeout name text), e) again =
      again (timeout name text) (paused (timeout name text) attempt attempts e)
  after_get attempt attempts (raised (http_status status text), e) again =
      if ltb status 500
      then (raised download_failed, reported (http_status status text) attempt attempts e)
      else again (http_status status text) (paused (http_status status text) attempt attempts e)
  after_get attempt attempts (raised (request name text), e) again =
      again (request name text) (paused (request name text) attempt attempts e)
  after_get attempt attempts (raised x, e) again = (raised x, e)

  -- The attempts that are left, and the last error.
  unfoldable pub download_rounds : ℕ → ℕ → ℕ → Option PyException → E → Outcome (List ℕ) × E
  unfolding after_get last_failure
  download_rounds attempts zero attempt last_error e = (raised (last_failure last_error), e)
  download_rounds attempts (suc left) attempt last_error e =
      after_get attempt attempts (s.get image_url e)
        (λ x e'. download_rounds attempts left (attempt + 1) (some x) e')

  unfoldable pub download_image_with_retries : E → Outcome (List ℕ) × E
  unfolding download_rounds
  download_image_with_retries e =
      let attempts = max_attempts settings.image_download_max_attempts in
      download_rounds attempts attempts 1 none e

module _ {E : Type 0} (float : FloatOps) (settings : Settings) (s : ImageServices E) where
  abbrev gpu_not_configured : PyException
  gpu_not_configured = app (record {
    code = "gpu_not_configured";
    message = "GPU moderation is not configured";
    status_code = 503;
  })

  abbrev removed : Outcome FrameModerationResult × E → Outcome ModerationDetectResponse × E
  removed (ok result, e) = (frame_to_detect_response result, s.remove_dir e)
  removed (raised x, e) = (raised x, s.remove_dir e)

  abbrev judged :
      GpuModerationService E
      → Option String
      → Outcome String × E
      → Outcome ModerationDetectResponse × E
  judged gpu prompt (raised x, e) = (raised x, s.remove_dir e)
  judged gpu prompt (ok path, e) =
      let frame : ExtractedFrame = record {
        frame_index = 0;
        timestamp_seconds = float.of_int 0;
        path = path;
      } in
      removed (moderate_image_generation float settings gpu frame (normalize_prompt prompt) e)

  abbrev with_gpu :
      Option (GpuModerationService E)
      → List ℕ
      → Option String
      → E
      → Outcome ModerationDetectResponse × E
  with_gpu none bytes prompt e = (raised gpu_not_configured, e)
  with_gpu (some gpu) [] prompt e =
      (raised (app (bad_request "empty_image" "image bytes are empty")), e)
  with_gpu (some gpu) (b ∷ bytes) prompt e =
      if ltb_ℤ settings.image_max_bytes (pos (length (b ∷ bytes)))
      then (raised (app (bad_request "image_too_large" "image exceeds configured max bytes")), e)
      else judged gpu prompt (s.write_image (b ∷ bytes) e)

  unfoldable pub detect_image_bytes :
      List ℕ → Option String → E → Outcome ModerationDetectResponse × E
  unfolding frame_to_detect_response normalize_prompt moderate_image_generation
  detect_image_bytes bytes prompt e = with_gpu s.gpu bytes prompt e

  abbrev closed : E → E
  closed e = if s.owns_client then s.close e else e

  abbrev downloaded : Option String → Outcome (List ℕ) × E → Outcome ModerationDetectResponse × E
  downloaded prompt (raised x, e) = (raised x, closed e)
  downloaded prompt (ok bytes, e) = detect_image_bytes bytes prompt (closed e)

  abbrev from_url :
      Option (GpuModerationService E)
      → String
      → Option String
      → E
      → Outcome ModerationDetectResponse × E
  from_url none image_url prompt e = (raised gpu_not_configured, e)
  from_url (some gpu) image_url prompt e =
      downloaded prompt (download_image_with_retries float settings s image_url e)

  unfoldable pub detect_url : String → Option String → E → Outcome ModerationDetectResponse × E
  unfolding download_image_with_retries detect_image_bytes
  detect_url image_url prompt e = from_url s.gpu image_url prompt e

  abbrev decoded : Option (List ℕ) → Option String → E → Outcome ModerationDetectResponse × E
  decoded none prompt e =
      (raised (app (bad_request "invalid_image_base64" "image_base64 must be valid base64")), e)
  decoded (some bytes) prompt e = detect_image_bytes bytes prompt e

  unfoldable pub detect_base64 : String → Option String → E → Outcome ModerationDetectResponse × E
  unfolding detect_image_bytes
  detect_base64 image_base64 prompt e = decoded (s.b64decode image_base64) prompt e
