-- ===== src/Queue.antt =====
-- app/repositories/kvrocks/queue_repository.py: the queue of video jobs. `Job` is a job's text form,
-- `Memory` the repository that keeps everything in memory.
pub mod Job
pub mod Stream
pub mod Memory
pub mod Redis
pub mod Repository
pub mod Service
