-- ===== src/TextDetection.antt =====
-- app/services/text_detection_service.py: a text that the model classifies.
use ansuman_nsfw_detection_s.Base.{ℕ, String, Option, none, some}
use ansuman_nsfw_detection_s.Float.{FloatOps}
use ansuman_nsfw_detection_s.Settings.{Settings}
use ansuman_nsfw_detection_s.Errors.{Outcome, ok, raised, app, other}
use ansuman_nsfw_detection_s.Effects.{M, ◌>>=◌, lift}
use ansuman_nsfw_detection_s.Policy.{
  compute_is_nsfw, compute_overall_severity, ModerationDetectResponse,
}
use ansuman_nsfw_detection_s.ModelOutput.{ModerationModelOutput}
use ansuman_nsfw_detection_s.Gpu.{GpuModerationService, moderate_text}

abbrev pub gpu_not_configured : {A : Type 0} → Outcome A
gpu_not_configured = raised (
    app (record {
      code = "gpu_not_configured";
      message = "GPU moderation is not configured";
      status_code = 503;
    }))

abbrev pub text_response : ModerationModelOutput → Option ℕ → Outcome ModerationDetectResponse
text_response result none = raised (other "ValueError" result.top_category)
text_response result (some severity) = ok (record {
  top_category = result.top_category;
  is_nsfw = compute_is_nsfw result.categories;
  overall_severity = severity;
  categories = result.categories;
  reason = result.reason;
})

-- `TextDetectionService.detect`; the response's own validators hold of what it is built from.
unfoldable pub detect :
    {E : Type 0}
    → FloatOps
    → Settings
    → Option (GpuModerationService E)
    → String
    → M E ModerationDetectResponse
unfolding moderate_text compute_is_nsfw compute_overall_severity
detect float settings none text = lift gpu_not_configured
detect float settings (some service) text = do
  result ← moderate_text float settings service text
  lift (text_response result (compute_overall_severity result.top_category result.categories))
