-- ===== src/Tests/Redis.antt =====
-- The theorems on the Redis queue at a small server.
use ansuman_nsfw_detection_s.Base.{
  ◌≡◌, refl, map, arith, String, true, false, Option, none, List, [], ◌∷◌, ◌++◌,
}
use ansuman_nsfw_detection_s.Base.Dict.{lookup, insert, string_eq}
use ansuman_nsfw_detection_s.Errors.{ok}
use ansuman_nsfw_detection_s.Constants.{processing}
use ansuman_nsfw_detection_s.Models.{VideoJob}
use ansuman_nsfw_detection_s.Queue.Job.RoundTrip.{blanks_to_none}
use ansuman_nsfw_detection_s.Queue.Memory
use ansuman_nsfw_detection_s.Queue.Memory.{Queue, QueuedVideoJobMessage, empty_queue, new_job}
use ansuman_nsfw_detection_s.Queue.Redis.Jobs.{Represents, write_job, write-Represents}
use ansuman_nsfw_detection_s.Queue.Redis.Refinement.{update_status-refines}
use ansuman_nsfw_detection_s.Queue.Redis.Answers.{queued_entries}
use ansuman_nsfw_detection_s.Queue.Redis.Enqueue.{key_of, entry, enqueue_once}
use mathlib.Core.Option
use ansuman_nsfw_detection_s.Queue.Stream.{xadd, Raw}
use ansuman_nsfw_detection_s.Queue.Redis.{update_status, enqueue_video_job, message_of, Texts}
use ansuman_nsfw_detection_s.Queue.Redis.Delivery.{
  Step, read, command, deliver, states_after, waiting_entries, new_entries, deliver_once,
}
use ansuman_nsfw_detection_s.Tests.Fixtures.{request, decimal_dates, decimal_dates-Laws}
use ansuman_nsfw_detection_s.Tests.Store.{
  Store, act, client, redis_settings, server, keys, reader, blank,
}

-- JSON texts that no reader looks into.
abbrev texts : Texts
texts = record {
  dumps = λ d. "{}";
  dumps_compact = λ d. "{}";
  loads = λ s. none;
  str_of = λ v. "";
  contains = λ part whole. false;
}

blank-Represents :
    Represents decimal_dates decimal_dates-Laws texts redis_settings server keys blank empty_queue
unfolding lookup server
blank-Represents = record { held = λ id f. refl }

-- One job, in Redis and in memory.
abbrev job : VideoJob
job = new_job request 1

abbrev one : Queue
one = record empty_queue { jobs = insert "job" job [] }

abbrev one_stored : Store
one_stored =
    write_job decimal_dates decimal_dates-Laws texts redis_settings server keys "job" job blank

one-Represents :
    Represents decimal_dates decimal_dates-Laws texts redis_settings server keys one_stored one
one-Represents =
    write-Represents decimal_dates decimal_dates-Laws texts redis_settings server keys "job" job
      blank empty_queue one refl blank-Represents

abbrev changed : Option VideoJob × Queue
changed = Memory.update_status "job" processing none none 5 one

update_status-refines_example :
    (result : Option VideoJob) × (e' : Store) × (update_status decimal_dates texts redis_settings
        client "job" processing none none 5 one_stored
      ≡ (ok result, e'))
    × (Option.map blanks_to_none result ≡ Option.map blanks_to_none changed.0)
    × Represents decimal_dates decimal_dates-Laws texts redis_settings server keys e' changed.1
update_status-refines_example =
    update_status-refines decimal_dates decimal_dates-Laws texts redis_settings server keys
      one_stored one "job" processing none none 5 one-Represents

abbrev entries : Store → List (String × Raw)
entries e = queued_entries decimal_dates decimal_dates-Laws texts redis_settings server keys e

unknown : lookup "job" empty_queue.jobs ≡ none
unfolding lookup
unknown = refl

free : server.text_at (key_of request) blank ≡ none
unfolding server
free = refl

enqueue_once_example :
    (e' : Store) × (e'' : Store) × (id : String) × (enqueue_video_job decimal_dates texts
        redis_settings client request 1 blank
      ≡ (ok (record { job = job; enqueued = true }), e'))
    × Represents decimal_dates decimal_dates-Laws texts redis_settings server keys e'
        (Memory.store_job decimal_dates request 1 empty_queue)
    × (entries e'
        ≡ entries blank
          ++ (
            id,
            entry decimal_dates decimal_dates-Laws texts redis_settings server keys request blank
                empty_queue 1,
          )
            ∷ [])
    × (enqueue_video_job decimal_dates texts redis_settings client request 9 e'
        ≡ (ok (record { job = blanks_to_none job; enqueued = false }), e''))
    × (entries e'' ≡ entries e')
enqueue_once_example =
    enqueue_once decimal_dates decimal_dates-Laws texts redis_settings server keys request blank
      empty_queue 1 9 unknown free blank-Represents

-- A read of a message, which is not acknowledged, a new message, and another read.
abbrev two_waiting : Store
two_waiting =
    act (xadd "jobs" (("job_id", "b") ∷ [])) (act (xadd "jobs" (("job_id", "a") ∷ [])) blank)

abbrev steps : List Step
steps = read "w1" 1 5 ∷ command (xadd "jobs" (("job_id", "c") ∷ [])) ∷ read "w2" 9 5 ∷ []

abbrev at_end : Store
at_end = states_after decimal_dates texts redis_settings server reader steps two_waiting

deliver_once_example :
    (ms : List QueuedVideoJobMessage) × (deliver decimal_dates texts redis_settings server reader
        steps two_waiting
      ≡ (ok ms, at_end))
    × (ms
          ++ map
              (message_of texts)
              (waiting_entries decimal_dates texts redis_settings server reader at_end)
        ≡ map (message_of texts) (
            waiting_entries decimal_dates texts redis_settings server reader two_waiting
            ++ new_entries decimal_dates texts redis_settings server reader steps two_waiting))
deliver_once_example =
    deliver_once decimal_dates texts redis_settings server reader refl steps
      (omega arith, (refl, (omega arith, tt))) two_waiting
