-- ===== src/Readiness.antt =====
-- app/services/readiness_service.py and the health routes of app/api/v1/routes_health.py. `which` says
-- whether a binary is on the path.
use Prim.Native.String.{◌++◌ as text_append}
use ansuman_nsfw_detection_s.Base.{ℕ, String, Bool, List, [], ◌∷◌, all, is_some, if◌then◌else◌}
use ansuman_nsfw_detection_s.Settings.{
  Settings, internal_request_secret, is_postgres_configured, is_kvrocks_configured,
  is_clickhouse_configured, is_gpu_configured,
}

pub record ReadinessDependency : Type 0 where
  pub name : String
  pub ready : Bool
  pub detail : String

pub record ReadinessResponse : Type 0 where
  pub status : String
  pub dependencies : List ReadinessDependency

unfoldable pub dependency : String → Bool → String → ReadinessDependency
dependency name ready detail = record {
  name = name;
  ready = ready;
  detail = if ready then detail else text_append "not " detail;
}

-- `ReadinessService.check`
unfoldable pub check : Settings → (String → Bool) → List ReadinessDependency
unfolding dependency internal_request_secret is_postgres_configured is_kvrocks_configured
    is_clickhouse_configured is_gpu_configured
check settings which =
    dependency "internal_auth" (is_some (internal_request_secret settings)) "configured"
    ∷ dependency "postgres" (is_postgres_configured settings) "configured"
    ∷ dependency "kvrocks" (is_kvrocks_configured settings) "configured"
    ∷ dependency "clickhouse" (is_clickhouse_configured settings) "configured"
    ∷ dependency "gpu" (is_gpu_configured settings) "configured"
    ∷ dependency "ffmpeg" (which "ffmpeg") "binary available"
    ∷ dependency "ffprobe" (which "ffprobe") "binary available"
    ∷ []

-- The route `/ready`: the status and the body.
unfoldable pub ready : Settings → (String → Bool) → ℕ × ReadinessResponse
unfolding check
ready settings which =
    let dependencies = check settings which in
    let is_ready = all (λ (d : ReadinessDependency). d.ready) dependencies in
    (
      if is_ready then 200 else 503,
      record { status = if is_ready then "ready" else "not_ready"; dependencies = dependencies },
    )
