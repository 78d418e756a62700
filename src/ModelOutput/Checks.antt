-- ===== src/ModelOutput/Checks.antt =====
-- What a validated answer of the moderation model satisfies, and how its severity, its top category
-- and the blocking policy fit together.
use ansuman_nsfw_detection_s.Base.{
  ℕ, ◌≤◌, ◌<◌, ◌≡◌, refl, ◌≢◌, ◌↔◌, String, true, inl, inr, some, arith, str_eq, eq_iff, In,
  Bool-cases, Option-cases, le-maximum-map, maximum-map-le,
}
use ansuman_nsfw_detection_s.Base.Int.{pos}
use ansuman_nsfw_detection_s.Base.Dict.{lookup, string_eq}
use ansuman_nsfw_detection_s.Policy.{Scores, is_category, score, validate_category_scores}
use ansuman_nsfw_detection_s.Policy.Validated.{validate_lem}
use ansuman_nsfw_detection_s.ModelOutput.{
  RawOutput, ModerationModelOutput, unsafe_model_categories, max_unsafe_severity,
  top_category_matches_scores, validate_output,
}

-- The top category of an answer fits its scores: "safe" only when every unsafe category has 0, and
-- otherwise a category with a positive score that no unsafe category exceeds.
pub record TopFits (top : String) (scores : Scores) : Type 0 where
  pub safe : top ≡ "safe" → (c : String) → In c unsafe_model_categories → score scores c ≡ 0
  pub positive : top ≢ "safe" → 0 < score scores top
  pub highest :
      top ≢ "safe" → (c : String) → In c unsafe_model_categories → score scores c ≤ score scores top

score-le-max_unsafe :
    (scores : Scores) (c : String)
    → In c unsafe_model_categories
    → score scores c ≤ max_unsafe_severity scores
unfolding max_unsafe_severity
score-le-max_unsafe scores c i = le-maximum-map (score scores) c unsafe_model_categories i

max_unsafe-le :
    (scores : Scores) (n : ℕ)
    → ((c : String) → In c unsafe_model_categories → score scores c ≤ n)
    → max_unsafe_severity scores ≤ n
unfolding max_unsafe_severity
max_unsafe-le scores n h = maximum-map-le (score scores) n unsafe_model_categories h

matches-TopFits :
    (top : String) (scores : Scores)
    → top_category_matches_scores top scores ≡ true
    → TopFits top scores
unfolding top_category_matches_scores
matches-TopFits top scores h = record {
  safe = λ e c i. ground (arith, eq_iff top "safe", score-le-max_unsafe scores c i);
  positive = λ n. ground (arith, eq_iff top "safe");
  highest = λ n c i. ground (arith, eq_iff top "safe", score-le-max_unsafe scores c i);
}

TopFits-matches :
    (top : String) (scores : Scores)
    → TopFits top scores
    → top_category_matches_scores top scores ≡ true
unfolding top_category_matches_scores
TopFits-matches top scores f = elim (Bool-cases (str_eq top "safe")) [
  | inl e ↦
      let none_unsafe : max_unsafe_severity scores ≤ 0 =
        max_unsafe-le scores 0 (λ c i. omega (arith, f.safe ((eq_iff top "safe").0 e) c i)) in
      rw e (ground arith)
  | inr e ↦
      let other : top ≢ "safe" = λ p. cc (e, (eq_iff top "safe").1 p) in
      let below = max_unsafe-le scores (score scores top) (f.highest other) in
      let positive = f.positive other in rw e (ground arith)
]

-- The model validator accepts exactly the answers whose top category fits their scores.
pub top_category_matches_scores_iff :
    (top : String) (scores : Scores)
    → (top_category_matches_scores top scores ≡ true) ↔ TopFits top scores
top_category_matches_scores_iff top scores =
    (matches-TopFits top scores, TopFits-matches top scores)

-- A validated answer has its raw fields, a known top category that fits its scores, and a score
-- between 0 and 5, which is the one given, for every category.
pub record IsChecked (raw : RawOutput) (o : ModerationModelOutput) : Type 0 where
  pub top : o.top_category ≡ raw.top_category
  pub reason : o.reason ≡ raw.reason
  pub known : is_category o.top_category ≡ true
  pub fits : TopFits o.top_category o.categories
  pub scores :
      (c : String)
      → is_category c ≡ true
      → (n : ℕ) × (lookup c raw.categories ≡ some (pos n))
        × (lookup c o.categories ≡ some n)
        × (n ≤ 5)

-- Whatever passes the validators has its raw top category and reason, a known top category that fits its
-- scores, and for every category the score that was given, between 0 and 5.
pub validate_output_sound :
    (raw : RawOutput) (o : ModerationModelOutput) → validate_output raw ≡ some o → IsChecked raw o
unfolding validate_output
validate_output_sound raw o h = elim (Option-cases (validate_category_scores raw.categories)) [
  | inl e ↦ absurd (ground arith)
  | inr (categories, e) ↦
      let known : is_category raw.top_category ≡ true = ground arith in
      let fit : top_category_matches_scores raw.top_category categories ≡ true = ground arith in
      let shape : o ≡ (record {
        top_category = raw.top_category;
        categories = categories;
        reason = raw.reason;
      }) =
        ground arith in
      rw shape (record {
        top = refl;
        reason = refl;
        known = known;
        fits = matches-TopFits raw.top_category categories fit;
        scores = validate_lem raw.categories categories e;
      })
]
