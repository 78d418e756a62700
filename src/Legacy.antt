-- ===== src/Legacy.antt =====
-- app/services/legacy_mapping_service.py: the labels of the legacy table.
use ansuman_nsfw_detection_s.Base.{
  ℕ, String, Bool, Option, some, [], ◌∷◌, leb, max, if◌then◌else◌, or_else,
}
use ansuman_nsfw_detection_s.Base.Dict.{Dict, lookup, string_eq}
use ansuman_nsfw_detection_s.Float.{Double}
use ansuman_nsfw_detection_s.Policy.{Scores, score}
use ansuman_nsfw_detection_s.Models.{VideoModerationResult}

abbrev legacy_ec_mapping : Dict String String
legacy_ec_mapping =
    ("porn", "explicit")
    ∷ ("nudity", "nudity")
    ∷ ("suggestive", "provocative")
    ∷ ("sexual_minor_content", "explicit")
    ∷ []

unfoldable pub map_legacy_nsfw_ec : String → String
unfolding lookup
map_legacy_nsfw_ec final_top_category =
    or_else (lookup final_top_category legacy_ec_mapping) "neutral"

-- The label of a severity, by the ladder of tests.
unfoldable pub gore_label : ℕ → String
gore_label severity =
    if leb 5 severity
    then "VERY_LIKELY"
    else if leb 4 severity
    then "LIKELY"
    else if leb 3 severity
    then "POSSIBLE"
    else if leb 1 severity
    then "UNLIKELY"
    else "VERY_UNLIKELY"

unfoldable pub map_legacy_nsfw_gore : Scores → String
unfolding gore_label
map_legacy_nsfw_gore severities =
    gore_label (max (score severities "gore") (score severities "violence"))

-- `LegacyNsfwAggRow`
pub record LegacyNsfwAggRow : Type 0 where
  pub video_id : String
  pub gcs_video_id : Option String
  pub nsfw_ec : Option String
  pub nsfw_gore : Option String
  pub is_nsfw : Bool
  pub probability : Double

unfoldable pub to_legacy_nsfw_agg : VideoModerationResult → Option String → LegacyNsfwAggRow
to_legacy_nsfw_agg result historical_gcs_video_id = record {
  video_id = result.video_id;
  gcs_video_id = historical_gcs_video_id;
  nsfw_ec = some result.legacy_nsfw_ec;
  nsfw_gore = some result.legacy_nsfw_gore;
  is_nsfw = result.final_is_nsfw;
  probability = result.final_score;
}
