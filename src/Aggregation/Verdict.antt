-- ===== src/Aggregation/Verdict.antt =====
-- What the verdict on a video says of its frames.
use ansuman_nsfw_detection_s.Base.{
  ℕ, ◌≤◌, ◌≡◌, sym, ap, ◌∙◌, ◌↔◌, String, true, inl, inr, some, List, [], ◌∷◌, arith, Option-cases,
  length, In, maximum-map-attained, le-maximum-map, select,
}
use ansuman_nsfw_detection_s.Base.Dict.{lookup, string_eq}
use ansuman_nsfw_detection_s.Float.{FloatOps, FloatLaws}
use ansuman_nsfw_detection_s.Errors.{ok, ok-injective}
use ansuman_nsfw_detection_s.Settings.{Settings}
use ansuman_nsfw_detection_s.Policy.{score, is_category}
use ansuman_nsfw_detection_s.Models.{FrameModerationResult, VideoModerationResult, Datetime}
use ansuman_nsfw_detection_s.Aggregation.{
  select_top_category, max_severity, verdict, aggregate, moves, final_score_of,
}
use ansuman_nsfw_detection_s.Aggregation.Top.{IsRiskiest}

-- The verdict `r` on frames: it is NSFW exactly if a frame is; its counts are those of the NSFW frames
-- and of all frames;
-- its severity and its category maxima are reached by a frame and exceeded by none; its top category
-- is that of a frame of the highest severity, and the riskiest such.
pub record IsVerdict (frames : List FrameModerationResult) (r : VideoModerationResult)
    : Type 0 where
  pub nsfw_iff :
      (r.final_is_nsfw ≡ true) ↔ ((g : FrameModerationResult) × In g frames × (g.is_nsfw ≡ true))
  pub counted :
      (r.nsfw_frame_count ≡ length (select (λ (g : FrameModerationResult). g.is_nsfw) frames))
      × (r.total_frame_count ≡ length frames)
  pub bounded :
      (g : FrameModerationResult) → In g frames → g.overall_severity ≤ r.max_overall_severity
  pub top : IsRiskiest frames r.final_top_category
  pub reached : top.frame.overall_severity ≡ r.max_overall_severity
  pub maxima :
      (c : String)
      → is_category c ≡ true
      → (n : ℕ) × (lookup c r.max_category_severities ≡ some n)
        × ((g : FrameModerationResult) → In g frames → score g.categories c ≤ n)
        × ((g : FrameModerationResult) × In g frames × (score g.categories c ≡ n))

module _ (float : FloatOps) (settings : Settings) (job_id video_id policy_version : String)
    (now : Datetime) where
  -- A verdict that `aggregate` returns is that of its frames.
  pub aggregate-ok :
      (fs : List FrameModerationResult) {r : VideoModerationResult}
      → aggregate float settings job_id video_id policy_version now fs ≡ ok r
      → (top : String) × (r ≡ verdict float settings job_id video_id policy_version now fs top)
  unfolding aggregate
  aggregate-ok [] h = cc
  aggregate-ok (f ∷ fs) h = elim (Option-cases (select_top_category (f ∷ fs))) [
    | inl e ↦ absurd (ground arith)
    | inr (top, e) ↦ (top, sym (ok-injective (rw (e, aggregate) at h)))
  ]

  -- If the machine's floats keep the two laws, a video moves exactly if a fifth of the severity of one of
  -- its frames reaches the threshold.
  pub move_required_iff :
      (laws : FloatLaws float) (f : FrameModerationResult) (fs : List FrameModerationResult)
      (r : VideoModerationResult)
      → aggregate float settings job_id video_id policy_version now (f ∷ fs) ≡ ok r
      → (r.move_required ≡ true) ↔ (
          (g : FrameModerationResult) × In g (f ∷ fs)
          × (float.leb settings.move_threshold
                (float.div (float.of_int g.overall_severity) (float.of_int 5))
              ≡ true))
  unfolding verdict moves final_score_of
  move_required_iff laws f fs r er =
      let (t, same) = aggregate-ok (f ∷ fs) er in
      let moved = ap (λ (v : VideoModerationResult). v.move_required) same in
      let (g, i, e) =
        maximum-map-attained (λ (h : FrameModerationResult). h.overall_severity) f fs in
      (
        λ h. (g, i, rw e (sym moved ∙ h)),
        λ (k, there, high).
            moved
            ∙ laws.leb_trans settings.move_threshold _ _ high (
                laws.div_mono k.overall_severity (max_severity (f ∷ fs)) 5
                  (le-maximum-map (λ (h : FrameModerationResult). h.overall_severity) k (f ∷ fs)
                    there)
                  (omega arith)),
      )
