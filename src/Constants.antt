-- ===== src/Constants.antt =====
-- app/core/constants.py: the job statuses, as an enumeration of strings, and the categories.
use ansuman_nsfw_detection_s.Base.{
  String, ◌≡◌, refl, Bool, true, false, Option, none, some, List, [], ◌∷◌, str_eq, if◌then◌else◌,
}

pub data VideoJobStatus : Type 0 where
  queued processing classified failed_retryable failed_terminal superseded : VideoJobStatus

-- `status.value`
abbrev pub value : VideoJobStatus → String
value queued = "queued"
value processing = "processing"
value classified = "classified"
value failed_retryable = "failed_retryable"
value failed_terminal = "failed_terminal"
value superseded = "superseded"

-- `VideoJobStatus(text)`, with None for the ValueError
unfoldable pub status_of_value : String → Option VideoJobStatus
status_of_value s =
    if str_eq s "queued"
    then some queued
    else if str_eq s "processing"
    then some processing
    else if str_eq s "classified"
    then some classified
    else if str_eq s "failed_retryable"
    then some failed_retryable
    else if str_eq s "failed_terminal"
    then some failed_terminal
    else if str_eq s "superseded"
    then some superseded
    else none

pub status_of_value-value : (s : VideoJobStatus) → status_of_value (value s) ≡ some s
unfolding status_of_value
status_of_value-value queued = refl
status_of_value-value processing = refl
status_of_value-value classified = refl
status_of_value-value failed_retryable = refl
status_of_value-value failed_terminal = refl
status_of_value-value superseded = refl

-- `a == b` on statuses
abbrev pub status_beq : VideoJobStatus → VideoJobStatus → Bool
status_beq queued queued = true
status_beq processing processing = true
status_beq classified classified = true
status_beq failed_retryable failed_retryable = true
status_beq failed_terminal failed_terminal = true
status_beq superseded superseded = true
status_beq _ _ = false

-- `status in TERMINAL_VIDEO_STATUSES`
abbrev pub is_terminal : VideoJobStatus → Bool
is_terminal classified = true
is_terminal failed_terminal = true
is_terminal superseded = true
is_terminal _ = false

abbrev pub moderation_categories : List String
moderation_categories =
    "safe" ∷ "suggestive" ∷ "nudity" ∷ "porn" ∷ "gore" ∷ "violence" ∷ "self_harm"
    ∷ "hate_or_extremism" ∷ "drugs" ∷ "unknown" ∷ "sexual_minor_content" ∷ []

abbrev pub risk_order : List String
risk_order =
    "sexual_minor_content" ∷ "porn" ∷ "nudity" ∷ "gore" ∷ "violence" ∷ "self_harm"
    ∷ "hate_or_extremism" ∷ "drugs" ∷ "suggestive" ∷ "unknown" ∷ "safe" ∷ []
