-- ===== src/Queue/Redis.antt =====
-- `RedisVideoQueueRepository`: a job is a hash, two keys point to it, and its messages are entries of a
-- stream that a consumer group reads. `now` is the time that the call reads; `json` writes and reads
-- the payload of an entry.
pub mod Server
pub mod Jobs
pub mod Refinement
pub mod Answers
pub mod Enqueue
pub mod Delivery
use Prim.Native.String.{◌++◌ as text_append}
use ansuman_nsfw_detection_s.Base.{
  ℕ, String, Bool, true, false, Option, none, some, List, [], ◌∷◌, ◌++◌, map, or_else, str_eq, ◌&&◌,
  if◌then◌else◌,
}
use ansuman_nsfw_detection_s.Base.Dict.{Dict, lookup, insert, string_eq}
use ansuman_nsfw_detection_s.Constants.{VideoJobStatus}
use ansuman_nsfw_detection_s.Errors.{PyException, other, class_name, text_of}
use ansuman_nsfw_detection_s.Effects.{M, ◌>>=◌, ◌>>◌, pure, raise, lift, catching}
use ansuman_nsfw_detection_s.Settings.{Settings}
use ansuman_nsfw_detection_s.Json.{Json, object, Fields, fields}
use ansuman_nsfw_detection_s.Models.{VideoJob, Datetime}
use ansuman_nsfw_detection_s.Schemas.{VideoDetectRequest}
use ansuman_nsfw_detection_s.Queue.Job.{
  DateText, Mapping, optional, job_to_mapping, job_from_mapping,
}
use ansuman_nsfw_detection_s.Queue.Memory.{
  EnqueueResult, QueuedVideoJobMessage, new_job, with_status,
}
use ansuman_nsfw_detection_s.Queue.Stream.{
  Command, hset, set, set_nx, xadd, xack, Raw, mapping, flat, opaque, Reply, Client, xreadgroup,
}

-- Python's `json` and `str` where a payload passes through them: `dumps` with the default separators
-- and with `(",", ":")`, `loads` with None for JSONDecodeError, `str` of a decoded value, and
-- `"BUSYGROUP" not in str(exc)` by `contains`.
pub record Texts : Type 0 where
  pub dumps : Mapping → String
  pub dumps_compact : Mapping → String
  pub loads : String → Option Json
  pub str_of : Json → String
  pub contains : String → String → Bool

unfoldable pub job_key : String → String
job_key job_id = text_append "nsfw:video_job:" job_id

unfoldable pub unique_key : String → String → String → String
unique_key video_id source_object_version policy_version = text_append "nsfw:video_job_unique:" (
    text_append video_id
      (text_append ":" (text_append source_object_version (text_append ":" policy_version))))

unfoldable pub video_id_key : String → String
video_id_key video_id = text_append "nsfw:video_job_by_video_id:" video_id

-- if data
abbrev pub is_empty : Mapping → Bool
is_empty [] = true
is_empty (x ∷ d) = false

-- `{key: value for key, value in zip(payload[0::2], payload[1::2])}` onto the pairs read so far.
unfoldable pub pairs : List String → Mapping → Mapping
pairs [] d = d
pairs (key ∷ []) d = d
pairs (key ∷ value ∷ rest) d = pairs rest (insert key value d)

unfoldable pub stream_payload_to_mapping : Raw → Mapping
unfolding pairs
stream_payload_to_mapping (mapping d) = d
stream_payload_to_mapping (flat l) = pairs l []
stream_payload_to_mapping opaque = []

module _ (texts : Texts) where
  abbrev texts_of_fields : List (String × Json) → Mapping
  texts_of_fields fs = map (λ (f : String × Json). (f.0, texts.str_of f.1)) fs

  abbrev decoded_payload : Option Json → Mapping
  decoded_payload (some (object fs)) = texts_of_fields (fields fs)
  decoded_payload _ = []

  abbrev payload_of_text : Option String → Mapping
  payload_of_text none = []
  payload_of_text (some raw) = decoded_payload (texts.loads raw)

  unfoldable pub json_payload : Mapping → Mapping
  json_payload payload = payload_of_text (optional (lookup "payload" payload))

  abbrev job_id_of : Option String → Mapping → String
  job_id_of (some id) payload = id
  job_id_of none payload = or_else (lookup "job_id" (json_payload payload)) ""

  -- A message from an entry of the stream.
  unfoldable pub message_of : String × Raw → QueuedVideoJobMessage
  unfolding json_payload stream_payload_to_mapping
  message_of (message_id, raw) =
      let payload = stream_payload_to_mapping raw in
      record {
        message_id = message_id;
        job_id = job_id_of (optional (lookup "job_id" payload)) payload;
        payload = payload;
      }

  unfoldable pub messages_of : List (String × List (String × Raw)) → List QueuedVideoJobMessage
  unfolding message_of
  messages_of [] = []
  messages_of ((stream, entries) ∷ streams) = map message_of entries ++ messages_of streams

  -- Iteration over None raises.
  abbrev pub messages_of_reply : {E : Type 0} → Reply → M E (List QueuedVideoJobMessage)
  messages_of_reply none = raise (other "TypeError" "'NoneType' object is not iterable")
  messages_of_reply (some streams) = pure (messages_of streams)

module _ {E : Type 0} (c : Client E) where
  abbrev pub run_each : List Command → M E (Unit {0})
  run_each [] = pure tt
  run_each (command ∷ commands) = do c.run command; run_each commands

  -- A cluster has no transactions: it gets the commands one by one.
  unfoldable pub write_all : List Command → M E (Unit {0})
  write_all commands = if c.is_cluster then run_each commands else c.transaction commands

module _ {E : Type 0} (dates : DateText) (texts : Texts) (settings : Settings) (c : Client E) where
  abbrev stored_job : Mapping → M E (Option VideoJob)
  stored_job d = do job ← lift (job_from_mapping dates d); pure (some job)

  unfoldable pub get_job_by_id : String → M E (Option VideoJob)
  get_job_by_id job_id = do
    d ← c.hgetall (job_key job_id)
    if is_empty d then pure none else stored_job d

  abbrev job_of_text : Option String → M E (Option VideoJob)
  job_of_text none = pure none
  job_of_text (some job_id) = get_job_by_id job_id

  unfoldable pub get_job_by_video_id : String → M E (Option VideoJob)
  get_job_by_video_id video_id = do
    job_id ← c.get (video_id_key video_id)
    job_of_text (optional job_id)

  -- The answer for a job that exists, whose video is given a key if it has none.
  abbrev pub already : VideoJob → M E EnqueueResult
  already job = do
    c.run (set_nx (video_id_key job.video_id) job.job_id)
    pure (record { job = job; enqueued = false })

  -- The four writes for a new job, in their order.
  unfoldable pub writes : VideoDetectRequest → VideoJob → List Command
  writes request job =
      let payload = job_to_mapping dates job in
      hset (job_key request.job_id) payload
      ∷ set (unique_key request.video_id request.source_object_version request.policy_version)
          job.job_id
      ∷ set (video_id_key job.video_id) job.job_id
      ∷ xadd settings.queue_stream_name
          (("job_id", job.job_id) ∷ ("payload", texts.dumps payload) ∷ [])
      ∷ []

  unfoldable pub create : VideoDetectRequest → Datetime → M E EnqueueResult
  unfolding writes write_all new_job
  create request now = do
    write_all c (writes request (new_job request now))
    pure (record { job = new_job request now; enqueued = true })

  abbrev unless_exists : VideoDetectRequest → Datetime → Option VideoJob → M E EnqueueResult
  unless_exists request now none = create request now
  unless_exists request now (some existing) = already existing

  abbrev pub enqueue_unseen : VideoDetectRequest → Datetime → M E EnqueueResult
  enqueue_unseen request now = do
    existing_job_id ←
        c.get (unique_key request.video_id request.source_object_version request.policy_version)
    existing ← job_of_text (optional existing_job_id)
    unless_exists request now existing

  abbrev enqueue_seen : Mapping → M E EnqueueResult
  enqueue_seen d = do existing_job ← lift (job_from_mapping dates d); already existing_job

  unfoldable pub enqueue_video_job : VideoDetectRequest → Datetime → M E EnqueueResult
  unfolding create
  enqueue_video_job request now = do
    d ← c.hgetall (job_key request.job_id)
    if is_empty d then enqueue_unseen request now else enqueue_seen d

  abbrev write_status :
      String
      → VideoJobStatus
      → Option String
      → Option String
      → Datetime
      → Option VideoJob
      → M E (Option VideoJob)
  write_status job_id status error_code error_message now none = pure none
  write_status job_id status error_code error_message now (some job) =
      let updated = with_status status error_code error_message now job in
      (do c.run (hset (job_key job_id) (job_to_mapping dates updated)); pure (some updated))

  unfoldable pub update_status :
      String → VideoJobStatus → Option String → Option String → Datetime → M E (Option VideoJob)
  update_status job_id status error_code error_message now = do
    job ← get_job_by_id job_id
    write_status job_id status error_code error_message now job

  abbrev unless_busy : PyException → M E (Unit {0})
  unless_busy x =
      if c.is_response_error x && texts.contains "BUSYGROUP" (text_of x) then pure tt else raise x

  unfoldable pub ensure_consumer_group : M E (Unit {0})
  ensure_consumer_group =
      catching (c.xgroup_create settings.queue_stream_name settings.queue_group_name) unless_busy

  unfoldable pub read_video_job_messages : String → ℕ → ℕ → M E (List QueuedVideoJobMessage)
  unfolding messages_of
  read_video_job_messages consumer_name count block_ms = do
    streams ←
        xreadgroup c settings.queue_stream_name settings.queue_group_name consumer_name count
          block_ms
    messages_of_reply texts streams

  unfoldable pub ack_video_job_message : String → M E (Unit {0})
  ack_video_job_message message_id =
      c.run (xack settings.queue_stream_name settings.queue_group_name message_id)

  abbrev append_again : Option VideoJob → M E (Unit {0})
  append_again none = pure tt
  append_again (some job) = c.run (
      xadd settings.queue_stream_name
        (("job_id", job.job_id) ∷ ("payload", texts.dumps_compact (job_to_mapping dates job)) ∷ []))

  unfoldable pub requeue_video_job : String → M E (Unit {0})
  requeue_video_job job_id = do job ← get_job_by_id job_id; append_again job

  unfoldable pub move_video_job_message_to_dlq :
      QueuedVideoJobMessage → String → String → M E (Unit {0})
  unfolding ack_video_job_message
  move_video_job_message_to_dlq message error_code error_message = do
    c.run (
        xadd settings.queue_dlq_stream_name (
          ("message_id", message.message_id)
          ∷ ("job_id", message.job_id)
          ∷ ("error_code", error_code)
          ∷ ("error_message", error_message)
          ∷ ("payload", texts.dumps_compact message.payload)
          ∷ []))
    ack_video_job_message message.message_id
