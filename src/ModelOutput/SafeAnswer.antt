-- ===== src/ModelOutput/SafeAnswer.antt =====
-- What the validators leave open: the score of the category "safe" in an answer "safe".
use ansuman_nsfw_detection_s.Base.{
  ℕ, ◌≤◌, ◌≡◌, refl, String, false, some, map, str_eq, le→leb, if◌then◌else◌,
}
use ansuman_nsfw_detection_s.Base.Int.{pos}
use ansuman_nsfw_detection_s.Base.Dict.{lookup, string_eq}
use ansuman_nsfw_detection_s.Constants.{moderation_categories}
use ansuman_nsfw_detection_s.Policy.{
  score, is_category, severities_in_range, validate_category_scores, compute_overall_severity,
  compute_is_nsfw,
}
use ansuman_nsfw_detection_s.ModelOutput.{
  RawOutput, ModerationModelOutput, overall_severity, is_nsfw, max_unsafe_severity,
  top_category_matches_scores, validate_output,
}

-- The raw answer "safe" that scores the category "safe" with `k` and every other category with 0.
abbrev pub safe_answer : ℕ → RawOutput
safe_answer k = record {
  top_category = "safe";
  categories =
      map (λ (c : String). (c, pos (if str_eq c "safe" then k else 0))) moderation_categories;
  reason = "";
}

-- For every score `k` up to 5, the answer "safe" that scores only the category "safe", with `k`, is
-- validated; its severity is then `k`, and it is not NSFW.
pub validate-safe_answer :
    (k : ℕ)
    → k ≤ 5
    → (o : ModerationModelOutput) × (validate_output (safe_answer k) ≡ some o)
      × (overall_severity o ≡ k)
      × (is_nsfw o ≡ false)
unfolding validate_output validate_category_scores severities_in_range top_category_matches_scores
    overall_severity is_nsfw compute_overall_severity compute_is_nsfw is_category lookup score
    max_unsafe_severity
validate-safe_answer k le = rw (le→leb k 5 le) (_, refl, refl, refl)
