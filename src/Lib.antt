-- ===== src/Lib.antt =====
-- The NSFW detection server: videos are enqueued for moderation, a worker takes a message from the
-- queue, downloads the video, extracts frames, has them judged by a model in batches, aggregates the
-- answers to a verdict, makes it final and publishes it. Internal requests are signed.
--
-- Base: numbers, lists, dicts and texts. ℤ is Base/Int, Python's `str`, `int` and `strip` are Base/Text.
-- Constants, Float, Errors, Settings, Json, Models, Schemas: app/core/constants.py, app/errors,
--   app/config/settings.py, app/models and app/schemas. A Double is a bit pattern whose operations are a
--   parameter; a datetime is a number of microseconds; an exception is a value, by the classes that the
--   handlers tell apart.
-- Policy, ModelOutput: app/services/moderation_policy.py, app/schemas/moderation.py and
--   app/schemas/model_output.py. `validate_output` is the validators in order, and
--   ModelOutput/Parsing and ModelOutput/Extraction read an answer's text. `json.loads`, `raw_decode` and
--   the reading of the fields' types are parameters. The search for a second document is on fuel, one more
--   than the characters of the text.
-- Aggregation, Legacy: app/services/aggregation_service.py and app/services/legacy_mapping_service.py.
-- Effects: calls that change a world and may raise, as a monad, with `try` and `finally`.
-- Queue: app/repositories/kvrocks/queue_repository.py. Queue/Memory is the repository in memory, a record
--   of its six attributes with one function per method; Queue/Job is the text form of a job. Queue/Redis
--   is the Redis repository, with one function per method that sends the commands of Queue/Stream;
--   redis-py is a record of calls, and Queue/Redis/Server says what they do on a server that answers.
--   Queue/Repository is the protocol that both implement, and Queue/Service app/services/queue_service.py.
-- Frames: app/services/frame_extraction_service.py, the download, the frames and the batches. The slices
--   are on fuel, the number of frames. Frames/Probe: what is read from the answer of ffprobe;
--   Frames/Commands: the two programs, with app/utils/subprocess.py.
-- Gpu: app/services/gpu_moderation_service.py, with the retries. The clients act on an environment.
-- Images: app/services/image_detection_service.py, the downloads with retries and the limits.
-- Processing: app/services/video_processing_service.py. The services that the processor is given are a
--   record of calls on an environment, each of which may raise; its theorems hold for all of them.
-- Worker: app/workers/video_worker.py, the handling of a message by how its processing ends.
-- Finalization: app/services/video_detection_service.py, app/services/storage_move_service.py and
--   app/clients/storj_interface.py; Rows: the rows that are published, app/schemas/clickhouse.py and
--   app/schemas/storage_action.py.
-- Buffer: app/repositories/kvrocks/clickhouse_buffer_repository.py, in memory and (Buffer/Redis) in
--   Redis, and app/services/clickhouse_flush_service.py.
-- Status, Ban, TextDetection, Readiness: app/services/video_status_service.py,
--   app/services/manual_ban_service.py, app/services/text_detection_service.py and
--   app/services/readiness_service.py. ClickHouse: app/repositories/clickhouse/base.py.
-- Api, Http: the routes of app/api/v1 and the handlers of app/errors/http.py.
-- Postgres: app/repositories/postgres. A statement is a value that a session executes; what PostgreSQL
--   does with it is a record of laws.
-- Auth: app/core/security.py and app/services/auth_service.py. The digests are parameters.
-- Tests: concrete values, and the theorems at them.
--
-- Not modelled: the clients of Redis, PostgreSQL, ClickHouse and the model, logging, Sentry and the
-- start-up code, which are input and output; the injection of dependencies; the loops that run for ever
-- around a worker's round; scripts and migrations. The semaphore of the GPU service is left out: it
-- delays calls and decides nothing. One consumer reads the queue at a time, and the steps of a message
-- are not interleaved with those of another. Read errors of a single Redis command are not part of the
-- laws of Queue/Redis/Server: there the server answers.
pub mod Base
pub mod Constants
pub mod Float
pub mod Effects
pub mod Errors
pub mod Settings
pub mod Json
pub mod Policy
pub mod ModelOutput
pub mod Models
pub mod Legacy
pub mod Aggregation
pub mod Schemas
pub mod Queue
pub mod Frames
pub mod Processing
pub mod Worker
pub mod Auth
pub mod Buffer
pub mod Gpu
pub mod Images
pub mod Rows
pub mod Finalization
pub mod Status
pub mod ClickHouse
pub mod Ban
pub mod Http
pub mod Api
pub mod TextDetection
pub mod Readiness
pub mod Postgres
pub mod Tests
