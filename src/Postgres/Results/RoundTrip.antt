-- ===== src/Postgres/Results/RoundTrip.antt =====
-- A verdict that is stored is read back.
use ansuman_nsfw_detection_s.Base.{
  ◌≡◌, refl, inl, inr, String, none, List, [], ◌∷◌, Option-cases, subst,
}
use ansuman_nsfw_detection_s.Base.Int.{ℤ}
use ansuman_nsfw_detection_s.Float.{FloatOps}
use ansuman_nsfw_detection_s.Settings.{Settings}
use ansuman_nsfw_detection_s.Errors.{Outcome, ok, ok-injective}
use ansuman_nsfw_detection_s.Json.{Json, get_field, fields_of}
use ansuman_nsfw_detection_s.Policy.{Scores}
use ansuman_nsfw_detection_s.Models.{Datetime, FrameModerationResult, VideoModerationResult}
use ansuman_nsfw_detection_s.Aggregation.{
  aggregate, verdict, select_top_category, scores_json, final_response_of,
}
use ansuman_nsfw_detection_s.Postgres.Results.{
  video_result_to_row, severities_of_fields, row_to_video_result,
}

module _ (ops : FloatOps) (to_int : Json → Outcome ℤ) where
  severities-scores_json : (s : Scores) → severities_of_fields ops to_int (scores_json s) ≡ ok s
  unfolding severities_of_fields scores_json
  severities-scores_json [] = refl
  severities-scores_json ((c, n) ∷ s) = rw (severities-scores_json s)

  module _ (settings : Settings) (job_id video_id policy_version : String) (now : Datetime) where
    verdict_back :
        (frames : List FrameModerationResult) (top : String)
        → let r = verdict ops settings job_id video_id policy_version now frames top in
          row_to_video_result ops to_int (video_result_to_row r) ≡ ok r
    unfolding verdict row_to_video_result video_result_to_row final_response_of fields_of get_field
    verdict_back frames top = rw (severities-scores_json _)

    -- Whatever the frames, the result that their aggregation returns is read back from its row as it was, with the severities of all categories, which the row keeps in the final response alone.
    pub row_to-to_row :
        (frames : List FrameModerationResult) (r : VideoModerationResult)
        → aggregate ops settings job_id video_id policy_version now frames ≡ ok r
        → row_to_video_result ops to_int (video_result_to_row r) ≡ ok r
    unfolding aggregate
    row_to-to_row [] r h = absurd (cc)
    row_to-to_row (f ∷ fs) r h = elim (Option-cases (select_top_category (f ∷ fs))) [
      | inl none_top ↦ absurd (wrong none_top)
      | inr (top, e) ↦
          subst (λ x. row_to_video_result ops to_int (video_result_to_row x) ≡ ok x)
            (ok-injective (rw (e, aggregate) at h)) (verdict_back (f ∷ fs) top)
    ]
      where
        wrong : select_top_category (f ∷ fs) ≡ none → ⊥
        wrong e = cc (rw (e, aggregate) at h)
