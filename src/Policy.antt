-- ===== src/Policy.antt =====
-- app/services/moderation_policy.py and the validators of app/schemas/moderation.py. A severity is
-- an integer from 0 to 5 once it is validated: before that it is any integer.
pub mod Validated
use mathlib.Core.Option
use ansuman_nsfw_detection_s.Base.{
  ℕ, zero, ◌≡◌, String, Bool, true, false, ◌&&◌, ◌||◌, Option, none, some, List, [], ◌∷◌, str_eq,
  leb, ◌==◌, any, all, is_some, or_else, bool_beq, if◌then◌else◌,
}
use ansuman_nsfw_detection_s.Base.Int.{ℤ, pos, negsuc}
use ansuman_nsfw_detection_s.Base.Dict.{Dict, lookup, string_eq}
use ansuman_nsfw_detection_s.Constants.{moderation_categories}

abbrev pub Scores : Type 0
Scores = Dict String ℕ

abbrev pub category_block_thresholds : List (String × ℕ)
category_block_thresholds =
    ("porn", 4)
    ∷ ("sexual_minor_content", 3)
    ∷ ("gore", 4)
    ∷ ("violence", 4)
    ∷ ("self_harm", 4)
    ∷ ("hate_or_extremism", 4)
    ∷ ("drugs", 4)
    ∷ ("unknown", 4)
    ∷ ("suggestive", 5)
    ∷ ("nudity", 5)
    ∷ []

-- categories.get(category, 0)
unfoldable pub score : Scores → String → ℕ
score categories category = or_else (lookup category categories) 0

-- `category in MODERATION_CATEGORIES`
unfoldable pub is_category : String → Bool
is_category c = any (λ k. str_eq k c) moderation_categories

-- None for the ValueError of an unknown category, and for the KeyError of a missing one.
unfoldable pub compute_overall_severity : String → Scores → Option ℕ
compute_overall_severity top_category categories =
    if is_category top_category then lookup top_category categories else none

abbrev pub blocks : Scores → String × ℕ → Bool
blocks categories (category, threshold) = leb threshold (score categories category)

unfoldable pub compute_is_nsfw : Scores → Bool
compute_is_nsfw categories = any (blocks categories) category_block_thresholds

-- The severities of a dict, with None if one is not between 0 and 5.
unfoldable pub severities_in_range : Dict String ℤ → Option Scores
severities_in_range [] = some []
severities_in_range ((category, negsuc n) ∷ rest) = none
severities_in_range ((category, pos n) ∷ rest) =
    if leb n 5 then Option.map (λ r. (category, n) ∷ r) (severities_in_range rest) else none

-- The keys are exactly the categories, and every severity is in range; None for the ValueError.
unfoldable pub validate_category_scores : Dict String ℤ → Option Scores
unfolding severities_in_range
validate_category_scores value =
    if all (λ c. is_some (lookup c value)) moderation_categories
      && all (λ (kv : String × ℤ). is_category kv.0) value
    then severities_in_range value
    else none

pub record ModerationDetectResponse : Type 0 where
  pub top_category : String
  pub is_nsfw : Bool
  pub overall_severity : ℕ
  pub categories : Scores
  pub reason : String

-- The model's validator: whether the response is accepted, for categories that are validated.
unfoldable pub validate_policy_fields : ModerationDetectResponse → Bool
unfolding compute_overall_severity compute_is_nsfw
validate_policy_fields r = elim (compute_overall_severity r.top_category r.categories) [
  | none ↦ false
  | some expected ↦
      r.overall_severity == expected && bool_beq r.is_nsfw (compute_is_nsfw r.categories)
]
