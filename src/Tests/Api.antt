-- ===== src/Tests/Api.antt =====
-- The theorems at concrete inputs: the reads of the queue, a cluster's connection, and an accepted video.
use ansuman_nsfw_detection_s.Status.{ResultReader}
use ansuman_nsfw_detection_s.Base.{
  Option, none, some, ℕ, ◌+◌, ◌-◌, ◌≡◌, refl, String, none, some, List, [], ◌∷◌, ◌==◌,
  if◌then◌else◌,
}
use ansuman_nsfw_detection_s.Base.Int.{pos}
use ansuman_nsfw_detection_s.Errors.{ok, raised, other, max_connections}
use ansuman_nsfw_detection_s.Effects.{M}
use ansuman_nsfw_detection_s.Settings.{Settings}
use ansuman_nsfw_detection_s.Schemas.{VideoDetectResponse, VideoStatusResponse}
use ansuman_nsfw_detection_s.Queue.Memory.{Queue}
use ansuman_nsfw_detection_s.Queue.Memory.Invariant.{IsValid}
use ansuman_nsfw_detection_s.Queue.Stream.{Node, read_from_node}
use ansuman_nsfw_detection_s.Queue.Stream.Leases.{Leases, leaked, read_from_node-leased}
use ansuman_nsfw_detection_s.Queue.Service.{pool_max_attempts, read_with_pool_retry}
use ansuman_nsfw_detection_s.Queue.Service.Retries.{Ended, read_with_pool_retry-Ended}
use ansuman_nsfw_detection_s.Api.Accepted.{detect, status, accepted_is_found}
use ansuman_nsfw_detection_s.Gpu.{moderate_frame_batch}
use ansuman_nsfw_detection_s.Gpu.Batch.{IfOk}
use ansuman_nsfw_detection_s.Postgres.Database.{FrameRow}
use ansuman_nsfw_detection_s.Postgres.Frames.{Origin, frame_rows}
use ansuman_nsfw_detection_s.Postgres.Frames.Checks.{Stored, moderated_rows}
use ansuman_nsfw_detection_s.Tests.Fixtures.{
  settings, thousandths, decimal_dates, request, one_job, one_job-IsValid, frame,
}
use ansuman_nsfw_detection_s.Tests.Answers.{service}

-- A node whose sending fails; the state is the number of connections that are given out.
abbrev node : Node ℕ
node = record {
  acquire_connection = λ n. (ok tt, n + 1);
  disconnect_if_needed = λ n. (ok tt, n);
  send_packed_command = λ command n. (raised (other "ConnectionError" "reset"), n);
  read_response = λ n. (ok none, n);
  release = λ n. (ok tt, n - 1);
}

node_leases : Leases node
node_leases = record {
  leased = λ n. n;
  acquired = λ e e' h. cc;
  not_acquired = λ x e e' h. cc;
  disconnected = λ e. refl;
  sent = λ command e. refl;
  read = λ e. refl;
  released = λ e. refl;
}

read_from_node-leased_example :
    node_leases.leased (read_from_node node ("XREADGROUP" ∷ []) 4).1
    ≡ node_leases.leased 4 + leaked node ("XREADGROUP" ∷ []) 4
read_from_node-leased_example = read_from_node-leased node ("XREADGROUP" ∷ []) node_leases 4

-- A pool that is exhausted at first.
abbrev operation : M ℕ String
operation n = if n == 0 then (raised (max_connections "full"), 1) else (ok "job", n)

abbrev three_attempts : Settings
three_attempts = record settings { kvrocks_pool_max_attempts = pos 3 }

read_with_pool_retry-Ended_example :
    Ended thousandths
      (some three_attempts)
      (λ seconds n. n)
      operation
      (pool_max_attempts (some three_attempts))
      1
      0
      (read_with_pool_retry thousandths (some three_attempts) (λ seconds n. n) operation 0)
read_with_pool_retry-Ended_example =
    read_with_pool_retry-Ended thousandths (some three_attempts) (λ seconds n. n) operation 0

-- A reader that finds no result.
abbrev stored_results : Option (ResultReader Queue)
stored_results =
    some (record {
      get_by_job_id = λ id q. (ok none, q);
      get_latest_by_video_id = λ id q. (ok none, q);
    })

accepted_is_found_example :
    (r : VideoDetectResponse) × (q' : Queue) × (s : VideoStatusResponse) × (detect decimal_dates
        thousandths none
        (λ seconds q. q)
        1
        2
        stored_results
        request
        one_job
      ≡ (ok r, q'))
    × IsValid q'
    × (status decimal_dates thousandths none (λ seconds q. q) 1 2 stored_results r.video_id q'
        ≡ (ok s, q'))
    × (s.video_id ≡ r.video_id)
accepted_is_found_example =
    accepted_is_found decimal_dates thousandths none (λ seconds q. q) 1 2 stored_results request
      one_job one_job-IsValid (λ id q. (none, refl))

abbrev origin : Origin
origin = record {
  job_id = "job";
  video_id = "video";
  prompt_version = "1";
  model_provider = "openai";
  model_name = "model";
  model_version = none;
}

moderated_rows_example :
    IfOk
      (λ results.
        (rows : List FrameRow) × (frame_rows origin results ≡ ok rows)
        × Stored origin (frame ∷ []) rows)
      (moderate_frame_batch thousandths settings service (frame ∷ []) tt).0
moderated_rows_example = moderated_rows thousandths settings service origin (frame ∷ []) tt
