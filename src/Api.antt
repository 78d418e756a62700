-- ===== src/Api.antt =====
-- app/api/v1: the routes. A response model's JSON form is `dump`, a parameter, and so is the time.
pub mod Accepted
use ansuman_nsfw_detection_s.Base.{
  ℕ, String, Bool, true, false, Option, none, some, List, [], ◌∷◌, all, if◌then◌else◌,
}
use ansuman_nsfw_detection_s.Errors.Codes
use ansuman_nsfw_detection_s.Errors.{
  Outcome, ok, raised, AppError, PyException, app, max_connections, redis_connection, redis_timeout,
}
use ansuman_nsfw_detection_s.Effects.{M, ◌>>=◌, pure, raise, catching}
use ansuman_nsfw_detection_s.Settings.{
  Settings, internal_request_secret, is_postgres_configured, is_kvrocks_configured,
  is_clickhouse_configured, is_gpu_configured,
}
use ansuman_nsfw_detection_s.Schemas.{
  VideoDetectRequest, VideoDetectResponse, VideoStatusResponse, VideoBanRequest, VideoBanResponse,
}
use ansuman_nsfw_detection_s.Queue.Memory.{EnqueueResult}
use Prim.Native.String.{◌++◌ as text_append}

abbrev pub queue_unavailable_error : AppError
queue_unavailable_error = record {
  code = Codes.queue_unavailable;
  message = "queue storage is temporarily unavailable";
  status_code = 503;
}

-- `except (MaxConnectionsError, RedisConnectionError, RedisTimeoutError)`
abbrev pub is_redis_failure : PyException → Bool
is_redis_failure (max_connections text) = true
is_redis_failure (redis_connection text) = true
is_redis_failure (redis_timeout text) = true
is_redis_failure _ = false

abbrev pub not_found_error : AppError
not_found_error = record {
  code = Codes.not_found;
  message = "video job not found";
  status_code = 404;
}

module _ {E : Type 0} where
  abbrev unavailable : {A : Type 0} → PyException → M E A
  unavailable x = if is_redis_failure x then raise (app queue_unavailable_error) else raise x

  unfoldable pub detect_video :
      (VideoDetectRequest → M E EnqueueResult) → VideoDetectRequest → M E VideoDetectResponse
  detect_video enqueue request = do
    result ← catching (enqueue request) unavailable
    pure (record {
      job_id = result.job.job_id;
      video_id = result.job.video_id;
      status = result.job.status;
      trace_id = result.job.trace_id;
    })

  abbrev found : Option VideoStatusResponse → M E VideoStatusResponse
  found none = raise (app not_found_error)
  found (some response) = pure response

  unfoldable pub video_status :
      (String → M E (Option VideoStatusResponse)) → String → M E VideoStatusResponse
  video_status get_status video_id = do
    response ← catching (get_status video_id) unavailable
    found response

  unfoldable pub ban_video :
      (String → VideoBanRequest → M E VideoBanResponse)
      → String
      → VideoBanRequest
      → M E VideoBanResponse
  ban_video ban video_id request = do
    result ← ban video_id request
    pure (record {
      video_id = result.video_id;
      status = result.status;
      excluded_videos_written = result.excluded_videos_written;
      legacy_nsfw_agg_written = result.legacy_nsfw_agg_written;
      trace_id = result.trace_id;
    })
