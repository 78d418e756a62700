-- ===== src/Queue/Service.antt =====
-- app/services/queue_service.py: the queue as the routes and the workers use it. Reads of a job are
-- retried while the connection pool is exhausted.
pub mod Retries
use ansuman_nsfw_detection_s.Base.{
  ℕ, zero, suc, ◌+◌, ◌-◌, ◌^◌, String, Bool, true, false, Option, none, some, leb, if◌then◌else◌,
}
use ansuman_nsfw_detection_s.Float.{Double, FloatOps}
use ansuman_nsfw_detection_s.Constants.{VideoJobStatus}
use ansuman_nsfw_detection_s.Errors.{Outcome, ok, raised, PyException, max_connections, other}
use ansuman_nsfw_detection_s.Effects.{M}
use ansuman_nsfw_detection_s.Settings.{Settings}
use ansuman_nsfw_detection_s.Models.{VideoJob}
use ansuman_nsfw_detection_s.Schemas.{VideoDetectRequest}
use ansuman_nsfw_detection_s.Gpu.{max_attempts}
use ansuman_nsfw_detection_s.Queue.Memory.{EnqueueResult}
use ansuman_nsfw_detection_s.Queue.Repository.{Repository}

-- The two values that `__init__` keeps.
abbrev pub pool_max_attempts : Option Settings → ℕ
pool_max_attempts none = 1
pool_max_attempts (some settings) = max_attempts settings.kvrocks_pool_max_attempts

unfoldable pub pool_retry_base_delay : FloatOps → Option Settings → Double
pool_retry_base_delay float none = float.of_int 0
pool_retry_base_delay float (some settings) =
    let base = settings.kvrocks_pool_retry_base_delay_seconds in
    if float.ltb (float.of_int 0) base then base else float.of_int 0

-- The pause after a failed attempt, or None.
unfoldable pub pool_delay : FloatOps → ℕ → Double → Option Double
pool_delay float attempt base =
    let one = float.of_int 1 in
    let seconds = float.mul base (float.of_int (2 ^ (attempt - 1))) in
    let delay = if float.ltb one seconds then one else seconds in
    if float.ltb (float.of_int 0) delay then some delay else none

-- except MaxConnectionsError
abbrev pub is_exhausted : PyException → Bool
is_exhausted (max_connections text) = true
is_exhausted _ = false

-- `asyncio.sleep` is a parameter.
module _ {E : Type 0} (float : FloatOps) (settings : Option Settings) (sleep : Double → E → E) where
  abbrev slept : Option Double → E → E
  slept none e = e
  slept (some seconds) e = sleep seconds e

  unfoldable pub pause : ℕ → E → E
  unfolding pool_delay
  pause attempt e = slept (pool_delay float attempt (pool_retry_base_delay float settings)) e

  module _ {A : Type 0} (operation : M E A) where
    abbrev pub after_attempt : ℕ → Outcome A × E → M E A → Outcome A × E
    after_attempt attempt (ok a, e) again = (ok a, e)
    after_attempt attempt (raised x, e) again =
        if is_exhausted x
        then if leb (pool_max_attempts settings) attempt
          then (raised x, e)
          else again (pause attempt e)
        else (raised x, e)

    -- The rounds that are left of `for attempt in range(1, self._pool_max_attempts + 1)`.
    unfoldable pub pool_retry : ℕ → ℕ → M E A
    pool_retry zero attempt e =
        (raised (other "RuntimeError" "queue pool retry loop exited unexpectedly"), e)
    pool_retry (suc left) attempt e =
        after_attempt attempt (operation e) (λ e'. pool_retry left (attempt + 1) e')

    -- `QueueService._read_with_pool_retry`
    unfoldable pub read_with_pool_retry : M E A
    unfolding pool_retry
    read_with_pool_retry = pool_retry (pool_max_attempts settings) 1

  unfoldable pub get_status_by_video_id : Repository E → String → M E (Option VideoJob)
  unfolding read_with_pool_retry
  get_status_by_video_id r video_id = read_with_pool_retry (r.get_job_by_video_id video_id)

  unfoldable pub get_status_by_job_id : Repository E → String → M E (Option VideoJob)
  unfolding read_with_pool_retry
  get_status_by_job_id r job_id = read_with_pool_retry (r.get_job_by_id job_id)

unfoldable pub enqueue_video_detection :
    {E : Type 0} → Repository E → VideoDetectRequest → M E EnqueueResult
enqueue_video_detection r request = r.enqueue_video_job request
