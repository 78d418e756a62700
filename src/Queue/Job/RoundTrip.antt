-- ===== src/Queue/Job/RoundTrip.antt =====
-- Writing a job as texts and reading it back.
use ansuman_nsfw_detection_s.Base.{
  ℕ, ◌≡◌, refl, ap, ◌≢◌, inl, inr, String, Option, none, some, str_eq, eq_iff, or_else, Bool-cases,
}
use ansuman_nsfw_detection_s.Base.Dict.{lookup, string_eq}
use ansuman_nsfw_detection_s.Base.Text.{str, int_of, int_of-str}
use ansuman_nsfw_detection_s.Constants.{VideoJobStatus, value, status_of_value-value}
use ansuman_nsfw_detection_s.Errors.{ok}
use ansuman_nsfw_detection_s.Models.{VideoJob, Datetime}
use ansuman_nsfw_detection_s.Queue.Job.{
  DateText, DateTextLaws, required, optional, read_status, read_attempts, date_text, job_to_mapping,
  optional_datetime, job_from_mapping,
}

read_status-value : (s : VideoJobStatus) → read_status (value s) ≡ ok s
unfolding read_status
read_status-value s = rw (status_of_value-value s, read_status)

str_nonempty : (n : ℕ) → str n ≢ ""
str_nonempty n e =
    let blank : int_of "" ≡ none = unfold int_of in refl in cc (ap int_of e, int_of-str n, blank)

read_attempts-str : (n : ℕ) → read_attempts (some (str n)) ≡ ok n
unfolding read_attempts
read_attempts-str n = elim (Bool-cases (str_eq (str n) "")) [
  | inl e ↦ absurd (str_nonempty n ((eq_iff (str n) "").0 e))
  | inr e ↦ rw (e, int_of-str n)
]

optional-or_else : (o : Option String) → optional (some (or_else o "")) ≡ optional o
unfolding optional
optional-or_else none = refl
optional-or_else (some s) = refl

-- What a job is after a trip through its text form: an empty text has become None.
unfoldable pub blanks_to_none : VideoJob → VideoJob
blanks_to_none job = record job {
  post_id = optional job.post_id;
  canister_id = optional job.canister_id;
  upload_event_id = optional job.upload_event_id;
  trace_id = optional job.trace_id;
  last_error_code = optional job.last_error_code;
  last_error_message = optional job.last_error_message;
}

module _ (dates : DateText) (laws : DateTextLaws dates) where
  optional_datetime-date_text :
      (o : Option Datetime) → optional_datetime dates (some (date_text dates o)) ≡ ok o
  unfolding optional_datetime date_text optional
  optional_datetime-date_text none = refl
  optional_datetime-date_text (some t) = elim (Bool-cases (str_eq (dates.isoformat t) "")) [
    | inl e ↦ absurd (laws.isoformat_nonempty t ((eq_iff (dates.isoformat t) "").0 e))
    | inr e ↦ rw (e, laws.fromisoformat-isoformat t)
  ]

  -- If `fromisoformat` reads what `isoformat` writes, which is never empty, a job that is written as texts is read back, but for empty optional texts, which become None.
  pub job_from-to :
      (job : VideoJob) → job_from_mapping dates (job_to_mapping dates job) ≡ ok (blanks_to_none job)
  unfolding job_from_mapping job_to_mapping required lookup blanks_to_none
  job_from-to job =
      simp (read_status-value, read_attempts-str, optional_datetime-date_text, optional-or_else)
