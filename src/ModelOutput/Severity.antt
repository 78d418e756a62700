-- ===== src/ModelOutput/Severity.antt =====
-- How the severity of a validated answer, its top category and the blocking policy fit together.
use ansuman_nsfw_detection_s.Base.{
  &&_split, ||_split, leb→le, ℕ, ◌≤◌, ◌≡◌, refl, ◌≢◌, subst, String, Bool, true, inl, inr, ◌&&◌,
  ◌||◌, some, arith, str_eq, eq_iff, leb, any, all, In, all_at, any_at,
}
use ansuman_nsfw_detection_s.Base.Dict.{string_eq}
use ansuman_nsfw_detection_s.Constants.{moderation_categories}
use ansuman_nsfw_detection_s.Policy.{score, compute_overall_severity, category_block_thresholds}
use ansuman_nsfw_detection_s.Policy.Validated.{compute_is_nsfw_iff, category-In}
use ansuman_nsfw_detection_s.ModelOutput.{
  RawOutput, ModerationModelOutput, overall_severity, is_nsfw, unsafe_model_categories,
  validate_output,
}
use ansuman_nsfw_detection_s.ModelOutput.Checks.{IsChecked, validate_output_sound}

abbrev blockable : String × ℕ → Bool
blockable (c, threshold) = leb 3 threshold && any (λ k. str_eq k c) unsafe_model_categories

-- Every blocking threshold is at least 3 and belongs to an unsafe category.
thresholds_blockable : all blockable category_block_thresholds ≡ true
thresholds_blockable = refl

abbrev blocked_at_five : String → Bool
blocked_at_five c =
    str_eq c "safe"
    || any (λ (kv : String × ℕ). str_eq kv.0 c && leb kv.1 5) category_block_thresholds

-- Every unsafe category has a blocking threshold of at most 5.
categories_blocked : all blocked_at_five moderation_categories ≡ true
categories_blocked = refl

threshold_lem :
    (c : String) (t : ℕ)
    → In (c, t) category_block_thresholds
    → (3 ≤ t) × In c unsafe_model_categories
threshold_lem c t i =
    let (high, unsafe) =
      &&_split (leb 3 t) (any (λ k. str_eq k c) unsafe_model_categories)
        (all_at blockable (c, t) category_block_thresholds thresholds_blockable i) in
    let (k, j, e) = any_at (λ k. str_eq k c) unsafe_model_categories unsafe in
    (leb→le 3 t high, subst (λ x. In x unsafe_model_categories) ((eq_iff k c).0 e) j)

category_lem :
    (c : String)
    → In c moderation_categories
    → c ≢ "safe"
    → (t : ℕ) × In (c, t) category_block_thresholds × (t ≤ 5)
category_lem c i n =
    elim (||_split _ _ (all_at blocked_at_five c moderation_categories categories_blocked i)) [
      | inl e ↦ absurd (n ((eq_iff c "safe").0 e))
      | inr found ↦
          let ((k, t), j, e) =
            any_at (λ (kv : String × ℕ). str_eq kv.0 c && leb kv.1 5) category_block_thresholds
              found in
          let (same, small) = &&_split (str_eq k c) (leb t 5) e in
          (
            t,
            subst (λ x. In (x, t) category_block_thresholds) ((eq_iff k c).0 same) j,
            leb→le t 5 small,
          )
    ]

module _ (raw : RawOutput) (o : ModerationModelOutput) (h : validate_output raw ≡ some o) where
  checks : IsChecked raw o
  checks = validate_output_sound raw o h

  -- The severity of a validated answer is its top category's score, and at most 5.
  pub overall_severity_lem :
      (overall_severity o ≡ score o.categories o.top_category) × (overall_severity o ≤ 5)
  unfolding overall_severity compute_overall_severity score
  overall_severity_lem =
      let (n, _, e, small) = checks.scores o.top_category checks.known in
      (rw (checks.known, e) refl, rw (checks.known, e) small)

  -- A validated answer that the policy blocks has an unsafe top category of severity 3 or more.
  pub is_nsfw-severity : is_nsfw o ≡ true → (o.top_category ≢ "safe") × (3 ≤ overall_severity o)
  unfolding is_nsfw
  is_nsfw-severity nsfw =
      let (c, t, i, reached) = (compute_is_nsfw_iff o.categories).0 nsfw in
      let (high, unsafe) = threshold_lem c t i in
      let other : o.top_category ≢ "safe" = λ e. omega (arith, checks.fits.safe e c unsafe) in
      (other, omega (arith, checks.fits.highest other c unsafe, overall_severity_lem.0))

  -- A validated answer with an unsafe top category of severity 5 is blocked.
  pub severity-is_nsfw : o.top_category ≢ "safe" → overall_severity o ≡ 5 → is_nsfw o ≡ true
  unfolding is_nsfw
  severity-is_nsfw unsafe worst =
      let (t, i, small) =
        category_lem o.top_category (category-In o.top_category checks.known) unsafe in
      (compute_is_nsfw_iff o.categories).1
        (o.top_category, t, i, omega (arith, overall_severity_lem.0))
