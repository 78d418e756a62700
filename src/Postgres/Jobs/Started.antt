-- ===== src/Postgres/Jobs/Started.antt =====
-- What the table of jobs holds once the processing of a job has started or failed.
use mathlib.Core.List.{map-append}
use ansuman_nsfw_detection_s.Base.{
  ◌+◌, ◌-◌, ◌≡◌, refl, ap, ◌∙◌, inl, inr, String, Bool, true, false, ◌&&◌, ◌||◌, none, some, List,
  [], ◌∷◌, ◌++◌, map, any, str_eq, eq_iff, is_some, Bool-cases, if◌then◌else◌, arith,
}
use ansuman_nsfw_detection_s.Constants.{status_of_value-value}
use ansuman_nsfw_detection_s.Errors.{ok}
use ansuman_nsfw_detection_s.Effects.{M}
use ansuman_nsfw_detection_s.Models.{VideoJob, Datetime}
use ansuman_nsfw_detection_s.Postgres.Database.{
  JobRow, JobUpdate, Assignment, status_to, last_error_code_to, last_error_message_to,
  attempts_plus, started_now, updated_now, finished_now, finished_null, insert_job_unless_conflict,
  update_job, Session,
}
use ansuman_nsfw_detection_s.Postgres.Jobs.{
  video_job_to_row, row_to_video_job, inserted_job, start_processing, mark_processing,
}

-- A row has the id, and a row has the unique columns of another.
abbrev pub has_id : String → JobRow → Bool
has_id id r = str_eq r.job_id id

abbrev pub has_key : JobRow → JobRow → Bool
has_key r s =
    str_eq s.video_id r.video_id
    && (str_eq s.source_object_version r.source_object_version
        && str_eq s.policy_version r.policy_version)

-- What SET with one assignment makes of a row, at the time `now`.
abbrev pub assign : Datetime → Assignment → JobRow → JobRow
assign now (status_to status) r = record r { status = status }
assign now (last_error_code_to code) r = record r { last_error_code = some code }
assign now (last_error_message_to message) r = record r { last_error_message = some message }
assign now (attempts_plus n) r = record r { attempts = r.attempts + n }
assign now started_now r = record r { started_at = some now }
assign now updated_now r = record r { updated_at = some now }
assign now finished_now r = record r { finished_at = some now }
assign now finished_null r = record r { finished_at = none }

-- The assignments of an update are to different columns, so that their order does not matter.
abbrev pub apply_update : Datetime → JobUpdate → JobRow → JobRow
apply_update now [] r = r
apply_update now (a ∷ u) r = apply_update now u (assign now a r)

abbrev pub update_rows : Datetime → String → JobUpdate → List JobRow → List JobRow
update_rows now id u rows =
    map (λ (r : JobRow). if has_id id r then apply_update now u r else r) rows

-- What PostgreSQL promises of the statements on a table of jobs: `on conflict do nothing` adds a row
-- unless one has its id or its unique columns, an update changes the rows of its id, `now()` is the
-- time at which the transaction began, and a transaction whose statements succeed keeps what they do.
pub record Table {E : Type 0} (session : Session E) : Type 0 where
  pub rows : E → List JobRow
  pub now : E → Datetime
  pub inserted : JobRow → E → E
  pub updated : String → JobUpdate → E → E
  pub insert_lem :
      (r : JobRow) (e : E)
      → is_some r.created_at ≡ true
      → is_some r.updated_at ≡ true
      → session.execute (insert_job_unless_conflict r) e ≡ (ok tt, inserted r e)
  pub rows-inserted :
      (r : JobRow) (e : E)
      → rows (inserted r e) ≡ (
          if any (λ s. has_id r.job_id s || has_key r s) (rows e) then rows e else rows e ++ r ∷ [])
  pub now-inserted : (r : JobRow) (e : E) → now (inserted r e) ≡ now e
  pub update_lem :
      (id : String) (u : JobUpdate) (e : E)
      → session.execute (update_job id u) e ≡ (ok tt, updated id u e)
  pub rows-updated :
      (id : String) (u : JobUpdate) (e : E)
      → rows (updated id u e) ≡ update_rows (now e) id u (rows e)
  pub transaction_lem :
      (m : M E (Unit {0})) (e e' : E) → m e ≡ (ok tt, e') → session.transaction m e ≡ (ok tt, e')

-- A job's row gives the job back.
pub row-job : (job : VideoJob) → row_to_video_job (video_job_to_row job) ≡ ok job
unfolding row_to_video_job video_job_to_row
row-job job = rw (status_of_value-value job.status) refl

any-or :
    {A : Type 0} (p q : A → Bool) (xs : List A) → any (λ x. p x || q x) xs ≡ (any p xs || any q xs)
any-or p q [] = refl
any-or p q (x ∷ xs) = ground (arith, any-or p q xs)

update-absent :
    (now : Datetime) (id : String) (u : JobUpdate) (rows : List JobRow)
    → any (has_id id) rows ≡ false
    → update_rows now id u rows ≡ rows
update-absent now id u [] h = refl
update-absent now id u (r ∷ rows) h = elim (Bool-cases (has_id id r)) [
  | inl here ↦ absurd (ground (arith, h))
  | inr apart ↦ rw apart (ap (λ l. r ∷ l) (update-absent now id u rows (ground (arith, h))))
]

-- A row of the job once it starts: as processing, one attempt more, started and updated now.
abbrev pub processing_row : Datetime → JobRow → JobRow
processing_row now r = record r {
  status = "processing";
  attempts = r.attempts + 1;
  started_at = some now;
  updated_at = some now;
}

-- The new row of a job that starts: one attempt more than before it was read, and at least one.
abbrev pub started_row : VideoJob → Datetime → JobRow
started_row job now = record (video_job_to_row job) {
  status = "processing";
  attempts = (job.attempts - 1) + 1;
  started_at = some now;
  updated_at = some now;
}

-- The table once a job has started: its row counts one attempt more; it has a new row if it had none;
-- and nothing is recorded if another job has its unique columns.
abbrev pub started_rows : VideoJob → Datetime → List JobRow → List JobRow
started_rows job now rows =
    if any (has_id job.job_id) rows
    then map (λ (r : JobRow). if has_id job.job_id r then processing_row now r else r) rows
    else if any (has_key (video_job_to_row job)) rows
    then rows
    else rows ++ started_row job now ∷ []

-- What the start executes on a row of its job.
abbrev start_update : JobUpdate
start_update = status_to "processing" ∷ attempts_plus 1 ∷ started_now ∷ updated_now ∷ []

-- The row that is inserted, and the table between the two statements.
abbrev new_row : VideoJob → JobRow
new_row job = video_job_to_row (inserted_job job)

abbrev between : VideoJob → List JobRow → List JobRow
between job rows =
    if any (λ s. has_id job.job_id s || has_key (video_job_to_row job) s) rows
    then rows
    else rows ++ new_row job ∷ []

update-between :
    (job : VideoJob) (now : Datetime) (rows : List JobRow)
    → update_rows now job.job_id start_update (between job rows) ≡ started_rows job now rows
unfolding video_job_to_row inserted_job
update-between job now rows = elim (Bool-cases (any (has_id job.job_id) rows)) [
  | inl here ↦ rw (any-or (has_id job.job_id) (has_key (video_job_to_row job)) rows, here)
  | inr absent ↦ elim (Bool-cases (any (has_key (video_job_to_row job)) rows)) [
    | inl taken ↦
        rw (any-or (has_id job.job_id) (has_key (video_job_to_row job)) rows, absent, taken)
          (update-absent now job.job_id start_update rows absent)
    | inr free ↦
        rw (any-or (has_id job.job_id) (has_key (video_job_to_row job)) rows, absent, free)
          (map-append _ rows (new_row job ∷ [])
            ∙ rw (
              update-absent now job.job_id start_update rows absent,
              (eq_iff job.job_id job.job_id).1 refl,
            ))
  ]
]

module _ {E : Type 0} (session : Session E) (table : Table session) where
  start_processing-run :
      (job : VideoJob) (e : E)
      → is_some job.created_at ≡ true
      → is_some job.updated_at ≡ true
      → start_processing session job e
        ≡ (ok tt, table.updated job.job_id start_update (table.inserted (new_row job) e))
  unfolding start_processing mark_processing video_job_to_row inserted_job
  start_processing-run job e created updated = table.transaction_lem _ e _ (
      rw (table.insert_lem (new_row job) e created updated)
        (table.update_lem job.job_id start_update (table.inserted (new_row job) e)))

  inserted-between :
      (job : VideoJob) (e : E)
      → table.rows (table.inserted (new_row job) e) ≡ between job (table.rows e)
  unfolding video_job_to_row inserted_job
  inserted-between job e = table.rows-inserted (new_row job) e

  -- On a database that answers and does to the table of jobs what its two statements say, the start of a job with its dates succeeds: a row of the job becomes processing, with one attempt more, and started and updated now; a job with no row gets one that is so, unless a row of another job has its video, its version and its policy, in which case nothing is written.
  pub start_processing-rows :
      (job : VideoJob) (e : E)
      → is_some job.created_at ≡ true
      → is_some job.updated_at ≡ true
      → ((start_processing session job e).0 ≡ ok tt)
        × (table.rows (start_processing session job e).1
            ≡ started_rows job (table.now e) (table.rows e))
  start_processing-rows job e created updated = rw (start_processing-run job e created updated) (
    refl,
    table.rows-updated job.job_id start_update (table.inserted (new_row job) e)
        ∙ rw (table.now-inserted (new_row job) e, inserted-between job e)
            (update-between job (table.now e) (table.rows e)),
  )
