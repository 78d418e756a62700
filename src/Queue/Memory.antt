-- ===== src/Queue/Memory.antt =====
-- `InMemoryVideoQueueRepository`: jobs, the index of unique keys, the messages of the queue with the
-- ids that were acknowledged, and the dead letters. `now` is the time that the call reads.
pub mod Invariant
pub mod Enqueue
pub mod Pending
pub mod Lookup
use ansuman_nsfw_detection_s.Base.{
  ℕ, ◌+◌, String, Bool, true, false, not, Option, none, some, List, [], ◌∷◌, ◌++◌, map, str_eq, ltb,
  length, take, any, select, or_else, if◌then◌else◌,
}
use ansuman_nsfw_detection_s.Base.Dict.{Dict, Triple, lookup, insert, string_eq, triple_eq}
use ansuman_nsfw_detection_s.Base.Text.{str}
use ansuman_nsfw_detection_s.Constants.{
  VideoJobStatus, queued, processing, failed_retryable, status_beq, is_terminal,
}
use ansuman_nsfw_detection_s.Errors.{Outcome, ok, raised, other}
use ansuman_nsfw_detection_s.Models.{VideoJob, Datetime}
use ansuman_nsfw_detection_s.Schemas.{VideoDetectRequest}
use ansuman_nsfw_detection_s.Queue.Job.{DateText, Mapping, job_to_mapping}

pub record EnqueueResult : Type 0 where
  pub job : VideoJob
  pub enqueued : Bool

pub record QueuedVideoJobMessage : Type 0 where
  pub message_id : String
  pub job_id : String
  pub payload : Mapping

-- A dead letter; its payload's text is `json.dumps` of the message's.
pub record DeadLetter : Type 0 where
  pub message_id : String
  pub job_id : String
  pub error_code : String
  pub error_message : String
  pub payload : Mapping

pub record Queue : Type 0 where
  pub jobs : Dict String VideoJob
  pub unique_index : Dict Triple String
  pub queue : List String
  pub messages : List QueuedVideoJobMessage
  pub acked_message_ids : List String
  pub dlq : List DeadLetter

abbrev pub empty_queue : Queue
empty_queue = record {
  jobs = [];
  unique_index = [];
  queue = [];
  messages = [];
  acked_message_ids = [];
  dlq = [];
}

abbrev pub unique_key : VideoDetectRequest → Triple
unique_key r = (r.video_id, r.source_object_version, r.policy_version)

-- The job that a request creates.
unfoldable pub new_job : VideoDetectRequest → Datetime → VideoJob
new_job request now = record {
  job_id = request.job_id;
  video_id = request.video_id;
  source_object_version = request.source_object_version;
  policy_version = request.policy_version;
  status = queued;
  publisher_user_id = request.publisher_user_id;
  post_id = request.post_id;
  canister_id = request.canister_id;
  source_video_uri = request.source_video_uri;
  upload_event_id = request.upload_event_id;
  trace_id = request.trace_id;
  attempts = 0;
  last_error_code = none;
  last_error_message = none;
  created_at = some now;
  updated_at = some now;
  started_at = none;
  finished_at = none;
}

-- `existing.status in TERMINAL_VIDEO_STATUSES or existing.status in {QUEUED, PROCESSING, CLASSIFIED}`
abbrev pub is_settled_or_live : VideoJobStatus → Bool
is_settled_or_live failed_retryable = false
is_settled_or_live _ = true

-- What `update_status` makes of a job.
unfoldable pub with_status :
    VideoJobStatus → Option String → Option String → Datetime → VideoJob → VideoJob
with_status status error_code error_message now job = record job {
  status = status;
  attempts = if status_beq status processing then job.attempts + 1 else job.attempts;
  last_error_code = error_code;
  last_error_message = error_message;
  updated_at = some now;
  started_at = if status_beq status processing then some now else job.started_at;
  finished_at = if is_terminal status then some now else job.finished_at;
}

-- `message_id in self._acked_message_ids`
unfoldable pub is_acked : Queue → String → Bool
is_acked q id = any (λ a. str_eq a id) q.acked_message_ids

unfoldable pub get_job_by_id : String → Queue → Option VideoJob
get_job_by_id job_id q = lookup job_id q.jobs

-- `job.updated_at or datetime.min`
abbrev updated : VideoJob → Datetime
updated job = or_else job.updated_at 0

-- `max` by the time of the last update: the first of the latest.
unfoldable pub latest : VideoJob → List VideoJob → VideoJob
latest best [] = best
latest best (job ∷ jobs) = latest (if ltb (updated best) (updated job) then job else best) jobs

abbrev latest_of : List VideoJob → Option VideoJob
latest_of [] = none
latest_of (job ∷ jobs) = some (latest job jobs)

unfoldable pub get_job_by_video_id : String → Queue → Option VideoJob
get_job_by_video_id video_id q = latest_of (
    select (λ (job : VideoJob). str_eq job.video_id video_id)
      (map (λ (e : String × VideoJob). e.1) q.jobs))

-- The messages that are not acknowledged, at most `count` of them.
unfoldable pub read_video_job_messages : ℕ → Queue → List QueuedVideoJobMessage
read_video_job_messages count q =
    take count (select (λ (m : QueuedVideoJobMessage). not (is_acked q m.message_id)) q.messages)

unfoldable pub ack_video_job_message : String → Queue → Queue
ack_video_job_message id q = record q { acked_message_ids = id ∷ q.acked_message_ids }

unfoldable pub move_video_job_message_to_dlq :
    QueuedVideoJobMessage → String → String → Queue → Queue
unfolding ack_video_job_message
move_video_job_message_to_dlq message error_code error_message q =
    ack_video_job_message message.message_id (record q {
      dlq =
          q.dlq
          ++ record {
            message_id = message.message_id;
            job_id = message.job_id;
            error_code = error_code;
            error_message = error_message;
            payload = message.payload;
          }
            ∷ [];
    })

abbrev stored :
    Option VideoJob
    → String
    → VideoJobStatus
    → Option String
    → Option String
    → Datetime
    → Queue
    → Option VideoJob × Queue
stored none job_id status error_code error_message now q = (none, q)
stored (some job) job_id status error_code error_message now q =
    let job' = with_status status error_code error_message now job in
    (some job', record q { jobs = insert job_id job' q.jobs })

unfoldable pub update_status :
    String
    → VideoJobStatus
    → Option String
    → Option String
    → Datetime
    → Queue
    → Option VideoJob × Queue
update_status job_id status error_code error_message now q =
    stored (lookup job_id q.jobs) job_id status error_code error_message now q

module _ (dates : DateText) where
  -- The message that is appended for a job.
  unfoldable pub new_message : VideoJob → Queue → QueuedVideoJobMessage
  new_message job q = record {
    message_id = str (length q.messages + 1);
    job_id = job.job_id;
    payload = job_to_mapping dates job;
  }

  unfoldable pub append_message : VideoJob → Queue → Queue
  unfolding new_message
  append_message job q = record q {
    queue = q.queue ++ job.job_id ∷ [];
    messages = q.messages ++ new_message job q ∷ [];
  }

  -- The end of `enqueue_video_job`: a new job under its id and its unique key, and its message.
  unfoldable pub store_job : VideoDetectRequest → Datetime → Queue → Queue
  unfolding append_message new_job
  store_job request now q = append_message (new_job request now) (record q {
    jobs = insert request.job_id (new_job request now) q.jobs;
    unique_index = insert (unique_key request) request.job_id q.unique_index;
  })

  abbrev created : VideoDetectRequest → Datetime → Queue → Outcome EnqueueResult × Queue
  created request now q =
      (ok (record { job = new_job request now; enqueued = true }), store_job request now q)

  -- The branch of an entry in the index: `self._jobs[existing_job_id]` raises on a missing job.
  abbrev indexed_job :
      String
      → Option VideoJob
      → VideoDetectRequest
      → Datetime
      → Queue
      → Outcome EnqueueResult × Queue
  indexed_job id none request now q = (raised (other "KeyError" id), q)
  indexed_job id (some existing) request now q =
      if is_settled_or_live existing.status
      then (ok (record { job = existing; enqueued = false }), q)
      else created request now q

  abbrev by_index :
      Option String → VideoDetectRequest → Datetime → Queue → Outcome EnqueueResult × Queue
  by_index none request now q = created request now q
  by_index (some id) request now q = indexed_job id (lookup id q.jobs) request now q

  abbrev by_id :
      Option VideoJob → VideoDetectRequest → Datetime → Queue → Outcome EnqueueResult × Queue
  by_id (some existing) request now q = (ok (record { job = existing; enqueued = false }), q)
  by_id none request now q = by_index (lookup (unique_key request) q.unique_index) request now q

  unfoldable pub enqueue_video_job :
      VideoDetectRequest → Datetime → Queue → Outcome EnqueueResult × Queue
  unfolding store_job
  enqueue_video_job request now q = by_id (lookup request.job_id q.jobs) request now q

  -- `self._jobs[job_id]` raises on a missing job.
  abbrev requeued : Option VideoJob → String → Queue → Outcome (Unit {0}) × Queue
  requeued none job_id q = (raised (other "KeyError" job_id), q)
  requeued (some job) job_id q = (ok tt, append_message job q)

  unfoldable pub requeue_video_job : String → Queue → Outcome (Unit {0}) × Queue
  unfolding append_message
  requeue_video_job job_id q = requeued (lookup job_id q.jobs) job_id q
