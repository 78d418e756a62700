-- ===== src/Queue/Redis/Jobs.antt =====
-- The jobs that Redis holds, against the jobs of the repository in memory.
use mathlib.Core.Option
use ansuman_nsfw_detection_s.Base.{
  ◌≡◌, refl, sym, ap, ◌∙◌, inl, inr, String, true, false, Option, none, some, [], ◌∷◌, map, str_eq,
  eq_iff, or_else, Bool-cases, Option-cases, arith,
}
use ansuman_nsfw_detection_s.Base.Dict.{
  Dict, lookup, insert, lookup-insert_eq, lookup-insert_ne, string_eq,
}
use ansuman_nsfw_detection_s.Constants.{VideoJobStatus}
use ansuman_nsfw_detection_s.Errors.{ok}
use ansuman_nsfw_detection_s.Models.{VideoJob, Datetime}
use ansuman_nsfw_detection_s.Settings.{Settings}
use ansuman_nsfw_detection_s.Queue.Job.{
  DateText, DateTextLaws, Mapping, required, optional, non_empty, job_to_mapping, job_from_mapping,
}
use ansuman_nsfw_detection_s.Queue.Job.RoundTrip.{blanks_to_none, job_from-to}
use ansuman_nsfw_detection_s.Queue.Memory.{Queue, with_status}
use ansuman_nsfw_detection_s.Queue.Stream.{Client, hset}
use ansuman_nsfw_detection_s.Queue.Redis.{Texts, job_key, is_empty, get_job_by_id}
use ansuman_nsfw_detection_s.Queue.Redis.Server.{Kind, Keyed, Server, or_kept, job_key-eq}

required-eq :
    (d d' : Mapping)
    → ((f : String) → lookup f d ≡ lookup f d')
    → (key : String) → required key d ≡ required key d'
unfolding required
required-eq d d' h key = rw (h key, required)

-- A job is read from its fields alone, in whatever order they stand.
pub job_from_mapping-eq :
    (dates : DateText) (d d' : Mapping)
    → ((f : String) → lookup f d ≡ lookup f d')
    → job_from_mapping dates d ≡ job_from_mapping dates d'
unfolding job_from_mapping
job_from_mapping-eq dates d d' h = simp (h, required-eq d d' h)

or_else-optional : (o : Option String) → or_else (optional o) "" ≡ or_else o ""
unfolding optional non_empty
or_else-optional none = refl
or_else-optional (some s) = elim (Bool-cases (str_eq s "")) [
  | inl e ↦ rw e (sym ((eq_iff s "").0 e))
  | inr e ↦ rw e
]

-- Blank texts and None are written alike, also after a change of status.
job_to_mapping-blanks :
    (dates : DateText) (job : VideoJob)
    → job_to_mapping dates (blanks_to_none job) ≡ job_to_mapping dates job
unfolding job_to_mapping blanks_to_none
job_to_mapping-blanks dates job = simp (or_else-optional)

pub with_status-blanks :
    (dates : DateText) (status : VideoJobStatus) (code message : Option String) (now : Datetime)
    (job : VideoJob)
    → job_to_mapping dates (with_status status code message now (blanks_to_none job))
      ≡ job_to_mapping dates (with_status status code message now job)
unfolding job_to_mapping blanks_to_none with_status
with_status-blanks dates status code message now job = simp (or_else-optional)

pub empty_of : (d : Mapping) → ((f : String) → lookup f d ≡ none) → is_empty d ≡ true
unfolding lookup
empty_of [] h = refl
empty_of ((k, v) ∷ d) h = absurd (ground (arith, h k, eq_iff k k))

pub nonempty_of : (f v : String) (d : Mapping) → lookup f d ≡ some v → is_empty d ≡ false
unfolding lookup
nonempty_of f v [] h = cc
nonempty_of f v (x ∷ d) h = refl

pub job_id-field :
    (dates : DateText) (job : VideoJob)
    → lookup "job_id" (job_to_mapping dates job) ≡ some job.job_id
unfolding job_to_mapping lookup
job_id-field dates job = refl

-- The fields of a mapping, with no values.
abbrev marked : Mapping → Dict String (Unit {0})
marked d = map (λ (x : String × String). (x.0, tt)) d

lookup-marked : (f : String) (d : Mapping) → lookup f (marked d) ≡ Option.map (λ _. tt) (lookup f d)
unfolding lookup
lookup-marked f [] = refl
lookup-marked f ((k, v) ∷ d) = elim (Bool-cases (str_eq k f)) [
  | inl e ↦ rw e
  | inr e ↦ rw e (lookup-marked f d)
]

mark-none : (o : Option String) → Option.map {B = Unit {0}} (λ _. tt) o ≡ none → o ≡ none
mark-none none h = refl
mark-none (some v) h = cc

module _ {E : Type 0} {c : Client E} {kind : String → Kind} (dates : DateText)
    (laws : DateTextLaws dates) (texts : Texts) (settings : Settings) (s : Server c kind)
    (keyed : Keyed kind settings) where
  -- The hash of a job's key: nothing, or the job's text form.
  abbrev pub Holds : Option VideoJob → Mapping → Type 0
  Holds none d = (f : String) → lookup f d ≡ none
  Holds (some job) d = (f : String) → lookup f d ≡ lookup f (job_to_mapping dates job)

  -- Redis holds the jobs of the queue in memory.
  pub record Represents (e : E) (q : Queue) : Type 0 where
    pub held : (id : String) → Holds (lookup id q.jobs) (s.hash_of (job_key id) e)

  same_marks : (a b : VideoJob) → marked (job_to_mapping dates b) ≡ marked (job_to_mapping dates a)
  unfolding job_to_mapping
  same_marks a b = refl

  pub get-Holds :
      (id : String) (e : E) (o : Option VideoJob)
      → Holds o (s.hash_of (job_key id) e)
      → get_job_by_id dates texts settings c id e ≡ (ok (Option.map blanks_to_none o), e)
  unfolding get_job_by_id
  get-Holds id e none h = rw (
    s.hgetall_lem (job_key id) e (keyed.job_key_hash id),
    get_job_by_id,
    empty_of (s.hash_of (job_key id) e) h,
  )
  get-Holds id e (some job) h = rw (
    s.hgetall_lem (job_key id) e (keyed.job_key_hash id),
    get_job_by_id,
    nonempty_of "job_id" job.job_id (s.hash_of (job_key id) e)
        (h "job_id" ∙ job_id-field dates job),
    job_from_mapping-eq dates (s.hash_of (job_key id) e) (job_to_mapping dates job) h,
    job_from-to dates laws job,
  )

  -- All jobs are written under the same fields.
  same_fields :
      (f : String) (a b : VideoJob)
      → lookup f (job_to_mapping dates a) ≡ none
      → lookup f (job_to_mapping dates b) ≡ none
  same_fields f a b h = mark-none (lookup f (job_to_mapping dates b)) (
      sym (lookup-marked f (job_to_mapping dates b))
      ∙ ap (lookup f) (same_marks a b)
      ∙ lookup-marked f (job_to_mapping dates a)
      ∙ ap (Option.map (λ _. tt)) h)

  over_held :
      (f : String) (job : VideoJob) (o : Option VideoJob) (d : Mapping)
      → Holds o d
      → or_kept (lookup f (job_to_mapping dates job)) (lookup f d)
        ≡ lookup f (job_to_mapping dates job)
  over_held f job none d h = elim (Option-cases (lookup f (job_to_mapping dates job))) [
    | inl e ↦ rw (e, h f)
    | inr (v, e) ↦ rw e
  ]
  over_held f job (some old) d h = elim (Option-cases (lookup f (job_to_mapping dates job))) [
    | inl e ↦ rw (e, h f) (same_fields f job old e)
    | inr (v, e) ↦ rw e
  ]

  abbrev pub write_job : String → VideoJob → E → E
  write_job id job e = s.act (hset (job_key id) (job_to_mapping dates job)) e

  -- A write to another key changes nothing here.
  write_apart :
      (id j : String) (job : VideoJob) (e : E)
      → str_eq id j ≡ false
      → (o : Option VideoJob) → Holds o (s.hash_of (job_key j) e)
      → Holds o (s.hash_of (job_key j) (write_job id job e))
  write_apart id j job e apart none h = λ f.
      s.lookup-act (job_key j) f (hset (job_key id) (job_to_mapping dates job)) e
      ∙ rw (job_key-eq id j, apart) (h f)
  write_apart id j job e apart (some old) h = λ f.
      s.lookup-act (job_key j) f (hset (job_key id) (job_to_mapping dates job)) e
      ∙ rw (job_key-eq id j, apart) (h f)

  write_same :
      (id j : String) (job : VideoJob) (e : E) (o : Option VideoJob)
      → str_eq id j ≡ true
      → Holds o (s.hash_of (job_key j) e)
      → Holds (some job) (s.hash_of (job_key j) (write_job id job e))
  write_same id j job e o same h = λ f.
      s.lookup-act (job_key j) f (hset (job_key id) (job_to_mapping dates job)) e
      ∙ rw (job_key-eq id j, same) (over_held f job o (s.hash_of (job_key j) e) h)

  -- A job that is written is what its key holds, and the other keys hold what they held.
  pub write-Represents :
      (id : String) (job : VideoJob) (e : E) (q q' : Queue)
      → q'.jobs ≡ insert id job q.jobs
      → Represents e q
      → Represents (write_job id job e) q'
  write-Represents id job e q q' stored r = record {
    held = λ j. rw stored (elim (Bool-cases (str_eq id j)) [
      | inl same ↦
          rw (lookup-insert_eq id j job q.jobs same)
            (write_same id j job e (lookup j q.jobs) same (r.held j))
      | inr apart ↦
          rw (lookup-insert_ne id j job q.jobs apart)
            (write_apart id j job e apart (lookup j q.jobs) (r.held j))
    ]);
  }
