-- ===== src/Worker.antt =====
-- app/workers/video_worker.py: the loop of a video worker. A message is acknowledged, requeued or moved
-- to the dead letters by how the processing of its job ends; an exception that the processor lets
-- through stops the batch, and leaves the message as it is.
pub mod Delivery
pub mod Batch
use Prim.Native.String.{◌++◌ as text_append}
use ansuman_nsfw_detection_s.Base.{
  ℕ, String, Bool, true, false, Option, none, some, List, [], ◌∷◌, length, str_eq, if◌then◌else◌,
}
use ansuman_nsfw_detection_s.Float.{FloatOps}
use ansuman_nsfw_detection_s.Settings.{Settings}
use ansuman_nsfw_detection_s.Errors.{Outcome, ok, raised}
use ansuman_nsfw_detection_s.Models.{VideoJob}
use ansuman_nsfw_detection_s.Queue.Job.{DateText}
use ansuman_nsfw_detection_s.Queue.Memory
use ansuman_nsfw_detection_s.Queue.Memory.{Queue, QueuedVideoJobMessage}
use ansuman_nsfw_detection_s.Processing.{
  Services, World, Processed, finished, failed, crashed, process,
}

abbrev pub not_found_text : String → String
not_found_text job_id = text_append "queue job " (text_append job_id " was not found")

module _ {E : Type 0} (dates : DateText) (float : FloatOps) (settings : Settings)
    (s : Services E) where
  abbrev pub to_dlq :
      QueuedVideoJobMessage → String → String → World E → Outcome (Unit {0}) × World E
  to_dlq message code text w =
      (ok tt, record w { queue = Memory.move_video_job_message_to_dlq message code text w.queue })

  abbrev pub acked : QueuedVideoJobMessage → World E → Outcome (Unit {0}) × World E
  acked message w =
      (ok tt, record w { queue = Memory.ack_video_job_message message.message_id w.queue })

  abbrev pub after_requeue :
      QueuedVideoJobMessage → World E → Outcome (Unit {0}) × Queue → Outcome (Unit {0}) × World E
  after_requeue message w (ok _, q) = acked message (record w { queue = q })
  after_requeue message w (raised x, q) = (raised x, record w { queue = q })

  -- What follows the processing of the message's job.
  unfoldable pub settle :
      QueuedVideoJobMessage → VideoJob → Processed × World E → Outcome (Unit {0}) × World E
  settle message job (finished, w) = acked message w
  settle message job (crashed x, w) = (raised x, w)
  settle message job (failed failure, w) =
      if failure.retryable
      then after_requeue message w (Memory.requeue_video_job dates job.job_id w.queue)
      else to_dlq message failure.error_code failure.error_message w

  abbrev pub with_job :
      QueuedVideoJobMessage → Option VideoJob → World E → Outcome (Unit {0}) × World E
  with_job message none w = to_dlq message "queue_job_not_found" (not_found_text message.job_id) w
  with_job message (some job) w = settle message job (process float settings s job w)

  -- `VideoWorker._handle_message`
  unfoldable pub handle_message : QueuedVideoJobMessage → World E → Outcome (Unit {0}) × World E
  unfolding settle
  handle_message message w =
      if str_eq message.job_id ""
      then to_dlq message "queue_message_missing_job_id" "queue message did not contain a job_id" w
      else with_job message (Memory.get_job_by_id message.job_id w.queue) w

  abbrev pub then_messages :
      Outcome (Unit {0}) × World E
      → (World E → Outcome (Unit {0}) × World E)
      → Outcome (Unit {0}) × World E
  then_messages (ok _, w) k = k w
  then_messages (raised x, w) k = (raised x, w)

  -- `for message in messages: await self._handle_message(message)`
  unfoldable pub handle_messages :
      List QueuedVideoJobMessage → World E → Outcome (Unit {0}) × World E
  handle_messages [] w = (ok tt, w)
  handle_messages (message ∷ messages) w =
      then_messages (handle_message message w) (λ w'. handle_messages messages w')

  abbrev pub counted : ℕ → Outcome (Unit {0}) × World E → Outcome ℕ × World E
  counted n (ok _, w) = (ok n, w)
  counted n (raised x, w) = (raised x, w)

  -- `VideoWorker.run_once`, with the number of messages that a read gives at most.
  unfoldable pub run_once : ℕ → World E → Outcome ℕ × World E
  unfolding handle_messages
  run_once read_count w =
      let messages = Memory.read_video_job_messages read_count w.queue in
      counted (length messages) (handle_messages messages w)
