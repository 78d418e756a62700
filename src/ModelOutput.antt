-- ===== src/ModelOutput.antt =====
-- app/schemas/model_output.py, the models: what the moderation model may answer about a frame or a
-- text. The types of the fields are checked by the validation library, a parameter: it hands the
-- fields on as a `RawOutput`. The validators, which are the program's own, are modelled.
pub mod Checks
pub mod Severity
pub mod SafeAnswer
pub mod Extraction
pub mod Parsing
use mathlib.Core.Option
use ansuman_nsfw_detection_s.Base.{
  ℕ, zero, suc, String, Bool, true, false, Option, none, some, List, [], ◌∷◌, map, str_eq, leb,
  ◌==◌, maximum, select, not, or_else, if◌then◌else◌,
}
use ansuman_nsfw_detection_s.Base.Int.{ℤ, pos, negsuc}
use ansuman_nsfw_detection_s.Base.Dict.{Dict}
use ansuman_nsfw_detection_s.Constants.{moderation_categories}
use ansuman_nsfw_detection_s.Policy.{
  Scores, is_category, score, validate_category_scores, compute_overall_severity, compute_is_nsfw,
}

-- The fields of an answer, before the validators.
pub record RawOutput : Type 0 where
  pub top_category : String
  pub categories : Dict String ℤ
  pub reason : String

-- A validated answer.
pub record ModerationModelOutput : Type 0 where
  pub top_category : String
  pub categories : Scores
  pub reason : String

-- The computed fields. `overall_severity` cannot fail on a validated answer; 0 stands for the error.
unfoldable pub overall_severity : ModerationModelOutput → ℕ
overall_severity o = or_else (compute_overall_severity o.top_category o.categories) 0

unfoldable pub is_nsfw : ModerationModelOutput → Bool
is_nsfw o = compute_is_nsfw o.categories

abbrev pub unsafe_model_categories : List String
unsafe_model_categories = select (λ c. not (str_eq c "safe")) moderation_categories

unfoldable pub max_unsafe_severity : Scores → ℕ
max_unsafe_severity categories = maximum (map (score categories) unsafe_model_categories)

-- The model validator; false for one of its three errors.
unfoldable pub top_category_matches_scores : String → Scores → Bool
top_category_matches_scores top categories =
    if str_eq top "safe"
    then max_unsafe_severity categories == 0
    else if score categories top == 0
    then false
    else leb (max_unsafe_severity categories) (score categories top)

-- The validators in order, with None for a validation error: the literal type of `top_category`, the
-- field validator of `categories`, and the model validator.
abbrev checked : RawOutput → Scores → Option ModerationModelOutput
checked raw categories =
    if top_category_matches_scores raw.top_category categories
    then some
        (record { top_category = raw.top_category; categories = categories; reason = raw.reason })
    else none

abbrev checked_scores : RawOutput → Option Scores → Option ModerationModelOutput
checked_scores raw none = none
checked_scores raw (some categories) = checked raw categories

unfoldable pub validate_output : RawOutput → Option ModerationModelOutput
validate_output raw =
    if is_category raw.top_category
    then checked_scores raw (validate_category_scores raw.categories)
    else none

-- `FrameModerationOutput`: the index is at least 0.
pub record RawFrame : Type 0 where
  pub output : RawOutput
  pub frame_index : ℤ

pub record FrameModerationOutput : Type 0 where
  pub output : ModerationModelOutput
  pub open output use {top_category, categories, reason}
  pub frame_index : ℕ

abbrev with_index : ModerationModelOutput → ℤ → Option FrameModerationOutput
with_index o (pos n) = some (record { output = o; frame_index = n })
with_index o (negsuc n) = none

abbrev indexed : Option ModerationModelOutput → ℤ → Option FrameModerationOutput
indexed none i = none
indexed (some o) i = with_index o i

unfoldable pub validate_frame : RawFrame → Option FrameModerationOutput
validate_frame raw = indexed (validate_output raw.output) raw.frame_index
