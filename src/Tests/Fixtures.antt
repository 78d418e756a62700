-- ===== src/Tests/Fixtures.antt =====
-- Concrete values for the tests: settings, floats in thousandths, dates as decimal texts, and services
-- that all succeed.
use Prim.Native.Nat.{◌*◌, ◌/◌}
use ansuman_nsfw_detection_s.Base.{
  ℕ, ◌≡◌, ◌≢◌, refl, ap, String, true, false, Option, some, none, [], ◌∷◌, leb, ltb, str_eq, eq_iff,
}
use ansuman_nsfw_detection_s.Base.Int.{ℤ, pos, negsuc}
use ansuman_nsfw_detection_s.Base.Text.{str, int_of, int_of-str}
use ansuman_nsfw_detection_s.Base.Dict.{lookup, insert, string_eq}
use ansuman_nsfw_detection_s.Float.{FloatOps}
use ansuman_nsfw_detection_s.Settings.{Settings}
use ansuman_nsfw_detection_s.Errors.{ok}
use ansuman_nsfw_detection_s.Json.{null}
use ansuman_nsfw_detection_s.Policy.{Scores}
use ansuman_nsfw_detection_s.Models.{VideoModerationResult, VideoMetadata, FrameModerationResult}
use ansuman_nsfw_detection_s.Aggregation.{verdict}
use ansuman_nsfw_detection_s.Schemas.{VideoDetectRequest}
use ansuman_nsfw_detection_s.Frames.{ExtractedFrame}
use ansuman_nsfw_detection_s.Queue.Job.{DateText, DateTextLaws}
use ansuman_nsfw_detection_s.Queue.Memory.{
  Queue, QueuedVideoJobMessage, empty_queue, enqueue_video_job, new_job, new_message,
}
use ansuman_nsfw_detection_s.Queue.Memory.Invariant.{IsValid, empty-IsValid}
use ansuman_nsfw_detection_s.Queue.Memory.Enqueue.{enqueue-IsValid}
use ansuman_nsfw_detection_s.Processing.{Services}

abbrev pub settings : Settings
settings = record {
  app_name = "";
  environment = "";
  internal_request_hmac_secret = some "secret";
  internal_request_max_skew_sec = pos 300;
  postgres_database_url = none;
  kvrocks_host = none;
  kvrocks_port = pos 1;
  kvrocks_password = none;
  kvrocks_tls_enabled = false;
  kvrocks_cluster_enabled = false;
  kvrocks_max_connections = pos 1;
  kvrocks_pool_max_attempts = pos 1;
  kvrocks_pool_retry_base_delay_seconds = record { bits = 0 };
  kvrocks_socket_timeout_seconds = record { bits = 0 };
  kvrocks_socket_connect_timeout_seconds = record { bits = 0 };
  kvrocks_health_check_interval_seconds = pos 1;
  kvrocks_ssl_ca_cert = none;
  kvrocks_ssl_client_cert = none;
  kvrocks_ssl_client_key = none;
  clickhouse_primary_database_url = none;
  clickhouse_secondary_database_url = none;
  clickhouse_secure = false;
  clickhouse_verify = false;
  clickhouse_database = "";
  clickhouse_user = none;
  clickhouse_password = none;
  clickhouse_nsfw_table = "nsfw";
  clickhouse_nsfw_agg_table = "";
  clickhouse_excluded_videos_table = "";
  clickhouse_storage_actions_table = "";
  storj_interface_url = some "http://storj/";
  storj_interface_token = some "token";
  storj_interface_timeout_seconds = record { bits = 0 };
  api_base_url = none;
  api_key = none;
  model_name = none;
  model_provider = "";
  model_version = none;
  sentry_dsn = none;
  sentry_send_default_pii = false;
  default_policy_version = "";
  visual_prompt_version = "";
  image_prompt_version = "";
  image_text_prompt_version = "";
  text_prompt_version = "";
  aggregation_version = "";
  frame_batch_size = pos 2;
  gpu_max_concurrency = pos 1;
  gpu_max_attempts = pos 2;
  gpu_retry_base_delay_seconds = record { bits = 250 };
  image_max_bytes = pos 1;
  image_download_timeout_seconds = record { bits = 0 };
  image_download_max_attempts = pos 1;
  image_download_retry_base_delay_seconds = record { bits = 0 };
  video_download_timeout_seconds = record { bits = 0 };
  video_max_bytes = pos 1;
  video_temp_root = "";
  ffprobe_timeout_seconds = record { bits = 0 };
  ffmpeg_timeout_seconds = record { bits = 0 };
  move_threshold = record { bits = 800 };
  queue_stream_name = "";
  queue_group_name = "";
  queue_consumer_name = none;
  queue_read_count = pos 1;
  queue_block_ms = pos 1;
  queue_max_attempts = pos 3;
  queue_dlq_stream_name = "";
  clickhouse_buffer_video_results_key = "videos";
  clickhouse_buffer_legacy_key = "legacy";
  clickhouse_buffer_storage_actions_key = "actions";
  runtime_nsfw_key_prefix = "";
}

abbrev pub thousandths : FloatOps
thousandths = record {
  of_int = λ n. record { bits = n * 1000 };
  div = λ a b. record { bits = a.bits * 1000 / b.bits };
  mul = λ a b. record { bits = a.bits * b.bits / 1000 };
  leb = λ a b. leb a.bits b.bits;
  ltb = λ a b. ltb a.bits b.bits;
}

abbrev date_of : Option ℤ → Option ℕ
date_of (some (pos n)) = some n
date_of (some (negsuc n)) = none
date_of none = none

abbrev pub decimal_dates : DateText
decimal_dates = record { isoformat = str; fromisoformat = λ s. date_of (int_of s) }

pub decimal_dates-Laws : DateTextLaws decimal_dates
decimal_dates-Laws = record {
  fromisoformat-isoformat = λ t. ap date_of (int_of-str t);
  isoformat_nonempty = λ t e.
      let blank : int_of "" ≡ none = unfold int_of in refl in cc (ap int_of e, int_of-str t, blank);
}

abbrev pub request : VideoDetectRequest
request = record {
  job_id = "job";
  video_id = "video";
  publisher_user_id = "user";
  source_video_uri = "";
  post_id = none;
  canister_id = none;
  source_object_version = "v1";
  upload_event_id = none;
  upload_created_at = none;
  policy_version = "p1";
  trace_id = none;
}

abbrev pub one_job : Queue
one_job = (enqueue_video_job decimal_dates request 1 empty_queue).1

abbrev pub first_message : QueuedVideoJobMessage
first_message = new_message decimal_dates (new_job request 1) empty_queue

pub one_job-IsValid : IsValid one_job
one_job-IsValid =
    let (r, e, v, _, _) = enqueue-IsValid decimal_dates request 1 empty_queue empty-IsValid in v

pub one_job-stored : lookup "job" one_job.jobs ≡ some (new_job request 1)
unfolding enqueue_video_job lookup insert
one_job-stored = refl

pub one_job-messages : one_job.messages ≡ first_message ∷ []
unfolding enqueue_video_job new_message lookup
one_job-messages = refl

abbrev pub scores : ℕ → ℕ → Scores
scores porn gore =
    ("safe", 0)
    ∷ ("suggestive", 0)
    ∷ ("nudity", 0)
    ∷ ("porn", porn)
    ∷ ("gore", gore)
    ∷ ("violence", 0)
    ∷ ("self_harm", 0)
    ∷ ("hate_or_extremism", 0)
    ∷ ("drugs", 0)
    ∷ ("unknown", 0)
    ∷ ("sexual_minor_content", 0)
    ∷ []

abbrev pub porn_result : FrameModerationResult
porn_result = record {
  frame_index = 0;
  frame_timestamp_seconds = record { bits = 0 };
  top_category = "porn";
  is_nsfw = true;
  overall_severity = 5;
  categories = scores 5 0;
  reason = "";
  raw_response = null;
}

abbrev pub gore_result : FrameModerationResult
gore_result = record {
  frame_index = 1;
  frame_timestamp_seconds = record { bits = 1000 };
  top_category = "gore";
  is_nsfw = true;
  overall_severity = 5;
  categories = scores 0 5;
  reason = "";
  raw_response = null;
}

abbrev pub frame : ExtractedFrame
frame = record { frame_index = 0; timestamp_seconds = record { bits = 0 }; path = "frame_0001.jpg" }

abbrev metadata : VideoMetadata
metadata = record {
  job_id = "job";
  video_id = "video";
  duration_seconds = record { bits = 1000 };
  width = none;
  height = none;
  fps = none;
  codec_name = none;
  has_video_stream = true;
  frames_extracted = 0;
}

-- Services that all succeed.
abbrev pub services : Services Unit
services = record {
  now = λ e. 7;
  get_by_job_id = λ id e. (ok none, e);
  mark_processing = λ job e. (ok tt, e);
  mark_failed = λ id status code message e. (ok tt, e);
  prepare_job_dir = λ id e. (ok tt, e);
  download_video = λ job e. (ok tt, e);
  probe = λ job e. (ok metadata, e);
  extract_frames = λ job e. (ok (frame ∷ []), e);
  cleanup_dir = λ id e. e;
  moderate_frame_batch = λ frames e. (ok (porn_result ∷ []), e);
  finalize_classification = λ job metadata frames result e. (ok tt, e);
}

-- Texts that a test tells apart.
pub differ : (s t : String) → str_eq s t ≡ false → s ≢ t
differ s t h e = cc ((eq_iff s t).1 e, h)

-- The verdict on a video of one frame.
abbrev pub porn_verdict : VideoModerationResult
porn_verdict = verdict thousandths settings "job" "video" "p1" 7 (porn_result ∷ []) "porn"
