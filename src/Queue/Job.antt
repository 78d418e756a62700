-- ===== src/Queue/Job.antt =====
-- A job as a dict of texts and back: `_job_to_mapping` and `_job_from_mapping`. A datetime's text is
-- Python's `isoformat`, a parameter.
pub mod RoundTrip
use ansuman_nsfw_detection_s.Base.{
  ℕ, ◌≡◌, ◌≢◌, String, Option, none, some, List, [], ◌∷◌, str_eq, or_else, if◌then◌else◌,
}
use ansuman_nsfw_detection_s.Base.Int.{ℤ, pos, negsuc}
use ansuman_nsfw_detection_s.Base.Dict.{Dict, lookup, string_eq}
use ansuman_nsfw_detection_s.Base.Text.{str, int_of}
use ansuman_nsfw_detection_s.Constants.{VideoJobStatus, value, status_of_value}
use ansuman_nsfw_detection_s.Errors.{Outcome, ok, raised, other, ◌>>=◌}
use ansuman_nsfw_detection_s.Models.{VideoJob, Datetime}
use mathlib.Core.Option

-- `datetime.isoformat` and `datetime.fromisoformat`, with None for the ValueError.
pub record DateText : Type 0 where
  pub isoformat : Datetime → String
  pub fromisoformat : String → Option Datetime

-- `fromisoformat` reads what `isoformat` writes, which is never empty.
pub record DateTextLaws (d : DateText) : Type 0 where
  pub fromisoformat-isoformat : (t : Datetime) → d.fromisoformat (d.isoformat t) ≡ some t
  pub isoformat_nonempty : (t : Datetime) → d.isoformat t ≢ ""

abbrev pub Mapping : Type 0
Mapping = Dict String String

-- data[key]
unfoldable pub required : String → Mapping → Outcome String
required key data' = elim (lookup key data') [
  | none ↦ raised (other "KeyError" key)
  | some v ↦ ok v
]

-- `value or None`
unfoldable pub non_empty : String → Option String
non_empty s = if str_eq s "" then none else some s

-- optional(data.get(key))
unfoldable pub optional : Option String → Option String
unfolding non_empty
optional none = none
optional (some s) = non_empty s

unfoldable pub read_status : String → Outcome VideoJobStatus
read_status s = elim (status_of_value s) [ none ↦ raised (other "ValueError" s) | some v ↦ ok v ]

-- int(text or "0"), where a negative count of attempts, which is never written, counts as an error.
abbrev count_of : String → Option ℤ → Outcome ℕ
count_of s (some (pos n)) = ok n
count_of s (some (negsuc n)) = raised (other "ValueError" s)
count_of s none = raised (other "ValueError" s)

unfoldable pub read_attempts : Option String → Outcome ℕ
unfolding optional
read_attempts o = let s = or_else (optional o) "0" in count_of s (int_of s)

module _ (dates : DateText) where
  unfoldable pub date_text : Option Datetime → String
  date_text none = ""
  date_text (some t) = dates.isoformat t

  unfoldable pub job_to_mapping : VideoJob → Mapping
  unfolding date_text
  job_to_mapping job =
      ("job_id", job.job_id)
      ∷ ("video_id", job.video_id)
      ∷ ("source_object_version", job.source_object_version)
      ∷ ("policy_version", job.policy_version)
      ∷ ("status", value job.status)
      ∷ ("publisher_user_id", job.publisher_user_id)
      ∷ ("post_id", or_else job.post_id "")
      ∷ ("canister_id", or_else job.canister_id "")
      ∷ ("source_video_uri", job.source_video_uri)
      ∷ ("upload_event_id", or_else job.upload_event_id "")
      ∷ ("trace_id", or_else job.trace_id "")
      ∷ ("attempts", str job.attempts)
      ∷ ("last_error_code", or_else job.last_error_code "")
      ∷ ("last_error_message", or_else job.last_error_message "")
      ∷ ("created_at", date_text job.created_at)
      ∷ ("updated_at", date_text job.updated_at)
      ∷ ("started_at", date_text job.started_at)
      ∷ ("finished_at", date_text job.finished_at)
      ∷ []

  abbrev dated : String → Option Datetime → Outcome (Option Datetime)
  dated s none = raised (other "ValueError" s)
  dated s (some t) = ok (some t)

  abbrev read_non_empty_date : Option String → Outcome (Option Datetime)
  read_non_empty_date none = ok none
  read_non_empty_date (some s) = dated s (dates.fromisoformat s)

  -- optional_datetime(data.get(key))
  unfoldable pub optional_datetime : Option String → Outcome (Option Datetime)
  optional_datetime o = read_non_empty_date (optional o)

  unfoldable pub job_from_mapping : Mapping → Outcome VideoJob
  job_from_mapping d = do
    job_id ← required "job_id" d
    video_id ← required "video_id" d
    policy_version ← required "policy_version" d
    status_text ← required "status" d
    status ← read_status status_text
    publisher_user_id ← required "publisher_user_id" d
    source_video_uri ← required "source_video_uri" d
    attempts ← read_attempts (lookup "attempts" d)
    created_at ← optional_datetime (lookup "created_at" d)
    updated_at ← optional_datetime (lookup "updated_at" d)
    started_at ← optional_datetime (lookup "started_at" d)
    finished_at ← optional_datetime (lookup "finished_at" d)
    ok (record {
      job_id = job_id;
      video_id = video_id;
      source_object_version = or_else (lookup "source_object_version" d) "";
      policy_version = policy_version;
      status = status;
      publisher_user_id = publisher_user_id;
      post_id = optional (lookup "post_id" d);
      canister_id = optional (lookup "canister_id" d);
      source_video_uri = source_video_uri;
      upload_event_id = optional (lookup "upload_event_id" d);
      trace_id = optional (lookup "trace_id" d);
      attempts = attempts;
      last_error_code = optional (lookup "last_error_code" d);
      last_error_message = optional (lookup "last_error_message" d);
      created_at = created_at;
      updated_at = updated_at;
      started_at = started_at;
      finished_at = finished_at;
    })
