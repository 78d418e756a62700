-- ===== src/Postgres.antt =====
-- app/repositories/postgres: the rows of the tables, what is executed on them, and what is read back.
-- `Jobs` has the table of jobs, `Frames` the rows of frames, `Results` those of final results, and
-- `UnitOfWork` the transaction that makes a verdict final.
pub mod Database
pub mod Jobs
pub mod Frames
pub mod Results
pub mod UnitOfWork
