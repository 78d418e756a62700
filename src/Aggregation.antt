-- ===== src/Aggregation.antt =====
-- app/services/aggregation_service.py: the verdict on a video from the verdicts on its frames.
pub mod Top
pub mod Order
pub mod Verdict
use ansuman_nsfw_detection_s.Base.{
  ℕ, suc, String, Bool, ◌&&◌, ◌||◌, Option, none, some, List, [], ◌∷◌, map, str_eq, ltb, ◌==◌,
  length, maximum, select, if◌then◌else◌,
}
use ansuman_nsfw_detection_s.Base.Int.{pos}
use ansuman_nsfw_detection_s.Constants.{moderation_categories, risk_order}
use ansuman_nsfw_detection_s.Policy.{Scores, score}
use ansuman_nsfw_detection_s.Float.{Double, FloatOps}
use ansuman_nsfw_detection_s.Json
use ansuman_nsfw_detection_s.Json.{Json, Fields, fields_of}
use ansuman_nsfw_detection_s.Settings.{Settings}
use ansuman_nsfw_detection_s.Errors.{Outcome, ok, raised, other}
use ansuman_nsfw_detection_s.Models.{FrameModerationResult, VideoModerationResult, Datetime}
use ansuman_nsfw_detection_s.Legacy.{map_legacy_nsfw_ec, map_legacy_nsfw_gore}

-- The position of a text in a list, and the list's length if it is not there.
unfoldable pub index_of : String → List String → ℕ
index_of c [] = 0
index_of c (k ∷ ks) = if str_eq k c then 0 else suc (index_of c ks)

-- risk_rank.get(category, len(RISK_ORDER))
unfoldable pub risk_rank : String → ℕ
risk_rank category = index_of category risk_order

-- Whether the key (severity, -rank) of `g` is above that of `f`.
unfoldable pub beats : FrameModerationResult → FrameModerationResult → Bool
beats g f =
    ltb f.overall_severity g.overall_severity
    || f.overall_severity == g.overall_severity
      && ltb (risk_rank g.top_category) (risk_rank f.top_category)

-- `max(frames, key=...)`: the first frame whose key no other exceeds.
unfoldable pub best_frame :
    FrameModerationResult → List FrameModerationResult → FrameModerationResult
best_frame f [] = f
best_frame f (g ∷ gs) = best_frame (if beats g f then g else f) gs

-- `min(candidates, key=...)`: the first candidate of the lowest rank.
unfoldable pub min_by_rank : String → List String → String
min_by_rank c [] = c
min_by_rank c (d ∷ ds) = min_by_rank (if ltb (risk_rank d) (risk_rank c) then d else c) ds

-- The categories of the frames of the highest severity.
unfoldable pub candidates : ℕ → List FrameModerationResult → List String
candidates highest frames =
    map (λ (f : FrameModerationResult). f.top_category)
      (select (λ (f : FrameModerationResult). f.overall_severity == highest) frames)

-- None for the ValueError of `min` or `max` on an empty list.
abbrev first_min : List String → Option String
first_min [] = none
first_min (c ∷ cs) = some (min_by_rank c cs)

unfoldable pub select_top_category : List FrameModerationResult → Option String
select_top_category [] = none
select_top_category (f ∷ fs) = first_min (candidates (best_frame f fs).overall_severity (f ∷ fs))

abbrev pub category_maximum : List FrameModerationResult → String → ℕ
category_maximum frames category =
    maximum (map (λ (f : FrameModerationResult). score f.categories category) frames)

unfoldable pub max_severities : List FrameModerationResult → Scores
max_severities frames = map (λ c. (c, category_maximum frames c)) moderation_categories

-- `sum(1 for frame in frames if frame_is_nsfw(frame))`
unfoldable pub count_nsfw : List FrameModerationResult → ℕ
count_nsfw [] = 0
count_nsfw (f ∷ fs) = if f.is_nsfw then suc (count_nsfw fs) else count_nsfw fs

abbrev pub max_severity : List FrameModerationResult → ℕ
max_severity frames = maximum (map (λ (f : FrameModerationResult). f.overall_severity) frames)

-- The dict of severities as a JSON object.
unfoldable pub scores_json : Scores → Fields
scores_json [] = Json.end
scores_json ((c, n) ∷ s) = Json.field c (Json.int (pos n)) (scores_json s)

unfoldable pub final_response_of : Bool → Double → String → ℕ → ℕ → ℕ → Bool → Scores → Fields
final_response_of nsfw final top highest count total move severities = fields_of (
    ("final_is_nsfw", Json.bool nsfw)
    ∷ ("final_score", Json.float final)
    ∷ ("final_top_category", Json.string top)
    ∷ ("max_overall_severity", Json.int (pos highest))
    ∷ ("nsfw_frame_count", Json.int (pos count))
    ∷ ("total_frame_count", Json.int (pos total))
    ∷ ("move_required", Json.bool move)
    ∷ ("max_category_severities", Json.object (scores_json severities))
    ∷ [])

module _ (float : FloatOps) (settings : Settings) where
  -- final_score = max_overall_severity / 5.0
  unfoldable pub final_score_of : ℕ → Double
  final_score_of severity = float.div (float.of_int severity) (float.of_int 5)

  -- final_score >= settings.move_threshold
  unfoldable pub moves : ℕ → Bool
  moves severity = float.leb settings.move_threshold (final_score_of severity)

  unfoldable pub verdict :
      String
      → String
      → String
      → Datetime
      → List FrameModerationResult
      → String
      → VideoModerationResult
  verdict job_id video_id policy_version now frames top = record {
    job_id = job_id;
    video_id = video_id;
    policy_version = policy_version;
    prompt_version = settings.visual_prompt_version;
    aggregation_version = settings.aggregation_version;
    final_is_nsfw = ltb 0 (count_nsfw frames);
    final_score = final_score_of (max_severity frames);
    final_top_category = top;
    max_overall_severity = max_severity frames;
    nsfw_frame_count = count_nsfw frames;
    total_frame_count = length frames;
    move_required = moves (max_severity frames);
    move_threshold = settings.move_threshold;
    max_category_severities = max_severities frames;
    legacy_nsfw_ec = map_legacy_nsfw_ec top;
    legacy_nsfw_gore = map_legacy_nsfw_gore (max_severities frames);
    final_response =
        final_response_of (ltb 0 (count_nsfw frames)) (final_score_of (max_severity frames)) top
          (max_severity frames) (count_nsfw frames) (length frames) (moves (max_severity frames))
          (max_severities frames);
    created_at = now;
    updated_at = now;
  }

  unfoldable pub aggregate :
      String
      → String
      → String
      → Datetime
      → List FrameModerationResult
      → Outcome VideoModerationResult
  aggregate job_id video_id policy_version now [] =
      raised (other "ValueError" "cannot aggregate an empty frame list")
  aggregate job_id video_id policy_version now (f ∷ fs) = elim (select_top_category (f ∷ fs)) [
    | none ↦ raised (other "ValueError" "min() arg is an empty sequence")
    | some top ↦ ok (verdict job_id video_id policy_version now (f ∷ fs) top)
  ]
