-- ===== src/Queue/Repository.antt =====
-- `VideoQueueRepository`, the protocol that the services use, and the two classes that implement it.
-- `now` is the time that a call reads.
use ansuman_nsfw_detection_s.Base.{ℕ, String, Option, List}
use ansuman_nsfw_detection_s.Constants.{VideoJobStatus}
use ansuman_nsfw_detection_s.Errors.{ok}
use ansuman_nsfw_detection_s.Effects.{M}
use ansuman_nsfw_detection_s.Settings.{Settings}
use ansuman_nsfw_detection_s.Models.{VideoJob, Datetime}
use ansuman_nsfw_detection_s.Schemas.{VideoDetectRequest}
use ansuman_nsfw_detection_s.Queue.Job.{DateText}
use ansuman_nsfw_detection_s.Queue.Memory
use ansuman_nsfw_detection_s.Queue.Memory.{Queue, EnqueueResult, QueuedVideoJobMessage}
use ansuman_nsfw_detection_s.Queue.Redis
use ansuman_nsfw_detection_s.Queue.Redis.{Texts}
use ansuman_nsfw_detection_s.Queue.Stream.{Client}

pub record Repository (E : Type 0) : Type 0 where
  pub enqueue_video_job : VideoDetectRequest → M E EnqueueResult
  pub get_job_by_video_id : String → M E (Option VideoJob)
  pub get_job_by_id : String → M E (Option VideoJob)
  pub update_status :
      String → VideoJobStatus → Option String → Option String → M E (Option VideoJob)
  pub ensure_consumer_group : M E (Unit {0})
  pub read_video_job_messages : String → ℕ → ℕ → M E (List QueuedVideoJobMessage)
  pub ack_video_job_message : String → M E (Unit {0})
  pub requeue_video_job : String → M E (Unit {0})
  pub move_video_job_message_to_dlq : QueuedVideoJobMessage → String → String → M E (Unit {0})

abbrev pub memory_repository : DateText → Datetime → Repository Queue
memory_repository dates now = record {
  enqueue_video_job = λ request q. Memory.enqueue_video_job dates request now q;
  get_job_by_video_id = λ video_id q. (ok (Memory.get_job_by_video_id video_id q), q);
  get_job_by_id = λ job_id q. (ok (Memory.get_job_by_id job_id q), q);
  update_status = λ job_id status code message q.
      let (job, q') = Memory.update_status job_id status code message now q in (ok job, q');
  ensure_consumer_group = λ q. (ok tt, q);
  read_video_job_messages =
      λ consumer_name count block_ms q. (ok (Memory.read_video_job_messages count q), q);
  ack_video_job_message = λ id q. (ok tt, Memory.ack_video_job_message id q);
  requeue_video_job = λ job_id q. Memory.requeue_video_job dates job_id q;
  move_video_job_message_to_dlq =
      λ message code text q. (ok tt, Memory.move_video_job_message_to_dlq message code text q);
}

abbrev pub redis_repository :
    {E : Type 0} → DateText → Texts → Settings → Client E → Datetime → Repository E
redis_repository dates texts settings c now = record {
  enqueue_video_job = λ request. Redis.enqueue_video_job dates texts settings c request now;
  get_job_by_video_id = Redis.get_job_by_video_id dates texts settings c;
  get_job_by_id = Redis.get_job_by_id dates texts settings c;
  update_status = λ job_id status code message.
      Redis.update_status dates texts settings c job_id status code message now;
  ensure_consumer_group = Redis.ensure_consumer_group dates texts settings c;
  read_video_job_messages = Redis.read_video_job_messages dates texts settings c;
  ack_video_job_message = Redis.ack_video_job_message dates texts settings c;
  requeue_video_job = Redis.requeue_video_job dates texts settings c;
  move_video_job_message_to_dlq = Redis.move_video_job_message_to_dlq dates texts settings c;
}
