-- ===== src/Ban.antt =====
-- app/services/manual_ban_service.py: a video that a moderator bans. The repositories of ClickHouse are
-- parameters, with their `insert_rows`; `now` is the time of the call.
pub mod Order
use ansuman_nsfw_detection_s.Base.{String, true, Option, none, some, List, [], ◌∷◌}
use ansuman_nsfw_detection_s.Float.{Double, FloatOps}
use ansuman_nsfw_detection_s.Effects.{M, ◌>>=◌, ◌>>◌, pure}
use ansuman_nsfw_detection_s.Settings.{Settings}
use ansuman_nsfw_detection_s.Models.{Datetime}
use ansuman_nsfw_detection_s.Schemas.{VideoBanRequest, VideoBanResponse}
use ansuman_nsfw_detection_s.Legacy.{LegacyNsfwAggRow}

pub record ExcludedVideoRow : Type 0 where
  pub video_id : String
  pub excluded_at : Datetime
  pub exclusion_reason : String
  pub updated_at_replacing : Datetime

-- `ManualBanResult` has the fields of the response.
abbrev pub ManualBanResult : Type 0
ManualBanResult = VideoBanResponse

unfoldable pub excluded_row : String → Datetime → ExcludedVideoRow
excluded_row video_id now = record {
  video_id = video_id;
  excluded_at = now;
  exclusion_reason = "banned";
  updated_at_replacing = now;
}

unfoldable pub banned_legacy_row : FloatOps → String → LegacyNsfwAggRow
banned_legacy_row float video_id = record {
  video_id = video_id;
  gcs_video_id = none;
  nsfw_ec = some "explicit";
  nsfw_gore = some "VERY_UNLIKELY";
  is_nsfw = true;
  probability = float.of_int 1;
}

unfoldable pub ban_video :
    {E : Type 0}
    → FloatOps
    → Settings
    → (String → List ExcludedVideoRow → M E (Unit {0}))
    → (String → List LegacyNsfwAggRow → M E (Unit {0}))
    → String
    → VideoBanRequest
    → Datetime
    → M E ManualBanResult
ban_video float settings insert_excluded insert_legacy video_id request now = do
  insert_legacy settings.clickhouse_nsfw_agg_table (banned_legacy_row float video_id ∷ [])
  insert_excluded settings.clickhouse_excluded_videos_table (excluded_row video_id now ∷ [])
  pure (record {
    video_id = video_id;
    status = "banned";
    excluded_videos_written = true;
    legacy_nsfw_agg_written = true;
    trace_id = request.trace_id;
  })
