-- ===== src/Errors/Codes.antt =====
-- app/errors/codes.py: the codes of the application's errors.
use ansuman_nsfw_detection_s.Base.{String}

abbrev pub auth_missing_headers : String
auth_missing_headers = "auth_missing_headers"

abbrev pub auth_bad_timestamp : String
auth_bad_timestamp = "auth_bad_timestamp"

abbrev pub auth_timestamp_out_of_range : String
auth_timestamp_out_of_range = "auth_timestamp_out_of_range"

abbrev pub auth_bad_signature : String
auth_bad_signature = "auth_bad_signature"

abbrev pub not_found : String
not_found = "not_found"

abbrev pub not_implemented : String
not_implemented = "not_implemented"

abbrev pub service_unavailable : String
service_unavailable = "service_unavailable"

abbrev pub queue_error : String
queue_error = "queue_error"

abbrev pub queue_unavailable : String
queue_unavailable = "queue_unavailable"

abbrev pub validation_error : String
validation_error = "validation_error"

abbrev pub model_moderation_failed : String
model_moderation_failed = "model_moderation_failed"

abbrev pub model_response_invalid_json : String
model_response_invalid_json = "model_response_invalid_json"

abbrev pub model_response_invalid_schema : String
model_response_invalid_schema = "model_response_invalid_schema"

abbrev pub image_download_failed : String
image_download_failed = "image_download_failed"

abbrev pub image_download_timeout : String
image_download_timeout = "image_download_timeout"

abbrev pub image_download_upstream_error : String
image_download_upstream_error = "image_download_upstream_error"

abbrev pub video_download_empty : String
video_download_empty = "video_download_empty"

abbrev pub video_too_large : String
video_too_large = "video_too_large"

abbrev pub video_no_stream : String
video_no_stream = "video_no_stream"

abbrev pub video_probe_failed : String
video_probe_failed = "video_probe_failed"

abbrev pub video_extraction_failed : String
video_extraction_failed = "video_extraction_failed"
