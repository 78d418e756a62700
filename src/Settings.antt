-- ===== src/Settings.antt =====
-- app/config/settings.py: the configuration, as the program reads it. A SecretStr is its text; an
-- empty secret is false, as an empty text is.
use ansuman_nsfw_detection_s.Base.{String, Bool, false, ◌&&◌, not, Option, none, some, str_eq}
use ansuman_nsfw_detection_s.Base.Int.{ℤ}
use ansuman_nsfw_detection_s.Float.{Double}

pub record Settings : Type 0 where
  pub app_name : String
  pub environment : String
  pub internal_request_hmac_secret : Option String
  pub internal_request_max_skew_sec : ℤ
  pub postgres_database_url : Option String
  pub kvrocks_host : Option String
  pub kvrocks_port : ℤ
  pub kvrocks_password : Option String
  pub kvrocks_tls_enabled : Bool
  pub kvrocks_cluster_enabled : Bool
  pub kvrocks_max_connections : ℤ
  pub kvrocks_pool_max_attempts : ℤ
  pub kvrocks_pool_retry_base_delay_seconds : Double
  pub kvrocks_socket_timeout_seconds : Double
  pub kvrocks_socket_connect_timeout_seconds : Double
  pub kvrocks_health_check_interval_seconds : ℤ
  pub kvrocks_ssl_ca_cert : Option String
  pub kvrocks_ssl_client_cert : Option String
  pub kvrocks_ssl_client_key : Option String
  pub clickhouse_primary_database_url : Option String
  pub clickhouse_secondary_database_url : Option String
  pub clickhouse_secure : Bool
  pub clickhouse_verify : Bool
  pub clickhouse_database : String
  pub clickhouse_user : Option String
  pub clickhouse_password : Option String
  pub clickhouse_nsfw_table : String
  pub clickhouse_nsfw_agg_table : String
  pub clickhouse_excluded_videos_table : String
  pub clickhouse_storage_actions_table : String
  pub storj_interface_url : Option String
  pub storj_interface_token : Option String
  pub storj_interface_timeout_seconds : Double
  pub api_base_url : Option String
  pub api_key : Option String
  pub model_name : Option String
  pub model_provider : String
  pub model_version : Option String
  pub sentry_dsn : Option String
  pub sentry_send_default_pii : Bool
  pub default_policy_version : String
  pub visual_prompt_version : String
  pub image_prompt_version : String
  pub image_text_prompt_version : String
  pub text_prompt_version : String
  pub aggregation_version : String
  pub frame_batch_size : ℤ
  pub gpu_max_concurrency : ℤ
  pub gpu_max_attempts : ℤ
  pub gpu_retry_base_delay_seconds : Double
  pub image_max_bytes : ℤ
  pub image_download_timeout_seconds : Double
  pub image_download_max_attempts : ℤ
  pub image_download_retry_base_delay_seconds : Double
  pub video_download_timeout_seconds : Double
  pub video_max_bytes : ℤ
  pub video_temp_root : String
  pub ffprobe_timeout_seconds : Double
  pub ffmpeg_timeout_seconds : Double
  pub move_threshold : Double
  pub queue_stream_name : String
  pub queue_group_name : String
  pub queue_consumer_name : Option String
  pub queue_read_count : ℤ
  pub queue_block_ms : ℤ
  pub queue_max_attempts : ℤ
  pub queue_dlq_stream_name : String
  pub clickhouse_buffer_video_results_key : String
  pub clickhouse_buffer_legacy_key : String
  pub clickhouse_buffer_storage_actions_key : String
  pub runtime_nsfw_key_prefix : String

-- `bool(text)` for a text that may be None
abbrev pub truthy : Option String → Bool
truthy none = false
truthy (some s) = not (str_eq s "")

unfoldable pub internal_request_secret : Settings → Option String
internal_request_secret s = s.internal_request_hmac_secret

unfoldable pub is_kvrocks_configured : Settings → Bool
is_kvrocks_configured s = truthy s.kvrocks_host

unfoldable pub is_gpu_configured : Settings → Bool
is_gpu_configured s = truthy s.api_base_url && (truthy s.api_key && truthy s.model_name)

unfoldable pub is_clickhouse_configured : Settings → Bool
is_clickhouse_configured s = truthy s.clickhouse_primary_database_url

unfoldable pub is_postgres_configured : Settings → Bool
is_postgres_configured s = truthy s.postgres_database_url
