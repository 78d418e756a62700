-- ===== src/Queue/Redis/Server.antt =====
-- What the repository relies on of Redis: the states of a server that answers, in which each key holds
-- a value of its kind, and what each command does to what later commands read.
use text.Mathlib.TextLemmas.{append_cancel_left}
use ansuman_nsfw_detection_s.Base.{
  ◌≡◌, refl, ◌∙◌, inl, inr, String, Option, none, some, List, [], ◌∷◌, ◌++◌, All, str_eq, eq_iff,
  Bool-cases, if◌then◌else◌, arith,
}
use ansuman_nsfw_detection_s.Base.Dict.{lookup, string_eq}
use ansuman_nsfw_detection_s.Errors.{ok}
use ansuman_nsfw_detection_s.Settings.{Settings}
use ansuman_nsfw_detection_s.Queue.Job.{Mapping}
use ansuman_nsfw_detection_s.Queue.Stream.{
  Command, hset, set, set_nx, xadd, xack, Raw, mapping, Client,
}
use ansuman_nsfw_detection_s.Queue.Redis.{job_key, unique_key, video_id_key, write_all, run_each}

pub data Kind : Type 0 where
  hash scalar stream : Kind

-- The command goes to a key of the kind that it wants.
abbrev pub Fits : (String → Kind) → Command → Type 0
Fits kind (hset k d) = kind k ≡ hash
Fits kind (set k v) = kind k ≡ scalar
Fits kind (set_nx k v) = kind k ≡ scalar
Fits kind (xadd s d) = kind s ≡ stream
Fits kind (xack s g i) = kind s ≡ stream

abbrev pub or_kept : Option String → Option String → Option String
or_kept (some v) o = some v
or_kept none o = o

-- HSET writes the fields that it is given and keeps the others.
abbrev pub field_after : String → String → Command → Option String → Option String
field_after k f (hset j d) o = if str_eq j k then or_kept (lookup f d) o else o
field_after k f (set j v) o = o
field_after k f (set_nx j v) o = o
field_after k f (xadd s d) o = o
field_after k f (xack s g i) o = o

abbrev pub text_after : String → Command → Option String → Option String
text_after k (set j v) o = if str_eq j k then some v else o
text_after k (set_nx j v) o = if str_eq j k then or_kept o (some v) else o
text_after k (hset j d) o = o
text_after k (xadd s d) o = o
text_after k (xack s g i) o = o

-- An entry that is added waits behind the others.
abbrev pub waiting_after : String → String → Command → List (String × Raw) → List (String × Raw)
waiting_after s id (xadd t d) l = if str_eq t s then l ++ (id, mapping d) ∷ [] else l
waiting_after s id (hset j d) l = l
waiting_after s id (set j v) l = l
waiting_after s id (set_nx j v) l = l
waiting_after s id (xack t g i) l = l

-- The keys of the repository, by their kinds.
pub record Keyed (kind : String → Kind) (settings : Settings) : Type 0 where
  pub job_key_hash : (id : String) → kind (job_key id) ≡ hash
  pub unique_key_scalar : (a b c : String) → kind (unique_key a b c) ≡ scalar
  pub video_id_key_scalar : (v : String) → kind (video_id_key v) ≡ scalar
  pub queue_stream : kind settings.queue_stream_name ≡ stream
  pub dlq_stream : kind settings.queue_dlq_stream_name ≡ stream

pub record Server {E : Type 0} (c : Client E) (kind : String → Kind) : Type 0 where
  pub hash_of : String → E → Mapping
  pub text_at : String → E → Option String
  -- The entries of a stream that a group has not been given.
  pub waiting : String → String → E → List (String × Raw)
  pub next_id : String → E → String
  pub act : Command → E → E
  pub hgetall_lem : (k : String) (e : E) → kind k ≡ hash → c.hgetall k e ≡ (ok (hash_of k e), e)
  pub get_lem : (k : String) (e : E) → kind k ≡ scalar → c.get k e ≡ (ok (text_at k e), e)
  pub run_lem : (m : Command) (e : E) → Fits kind m → c.run m e ≡ (ok tt, act m e)
  pub transaction-run :
      (m : Command) (ms : List Command) (e : E)
      → Fits kind m
      → c.transaction (m ∷ ms) e ≡ c.transaction ms (act m e)
  pub transaction_empty : (e : E) → c.transaction [] e ≡ (ok tt, e)
  pub lookup-act :
      (k f : String) (m : Command) (e : E)
      → lookup f (hash_of k (act m e)) ≡ field_after k f m (lookup f (hash_of k e))
  pub text_at-act :
      (k : String) (m : Command) (e : E) → text_at k (act m e) ≡ text_after k m (text_at k e)
  pub waiting-act :
      (s g : String) (m : Command) (e : E)
      → waiting s g (act m e) ≡ waiting_after s (next_id s e) m (waiting s g e)

-- Two jobs have different keys.
pub job_key-eq : (a b : String) → str_eq (job_key a) (job_key b) ≡ str_eq a b
unfolding job_key
job_key-eq a b =
    ground
      (arith, eq_iff a b, eq_iff (job_key a) (job_key b), append_cancel_left "nsfw:video_job:" a b)

module _ {E : Type 0} {c : Client E} {kind : String → Kind} (s : Server c kind) where
  abbrev pub acts : List Command → E → E
  acts [] e = e
  acts (m ∷ ms) e = acts ms (s.act m e)

  pub transaction_lem :
      (ms : List Command) (e : E) → All (Fits kind) ms → c.transaction ms e ≡ (ok tt, acts ms e)
  transaction_lem [] e h = s.transaction_empty e
  transaction_lem (m ∷ ms) e (h, hs) =
      s.transaction-run m ms e h ∙ transaction_lem ms (s.act m e) hs

  run_each-acts :
      (keyed : List Command) (e : E)
      → All (Fits kind) keyed
      → run_each c keyed e ≡ (ok tt, acts keyed e)
  run_each-acts [] e h = refl
  run_each-acts (m ∷ ms) e (h, hs) = rw (s.run_lem m e h) (run_each-acts ms (s.act m e) hs)

  -- A transaction and a cluster's commands one by one come to the same.
  pub write_all-acts :
      (ms : List Command) (e : E) → All (Fits kind) ms → write_all c ms e ≡ (ok tt, acts ms e)
  unfolding write_all
  write_all-acts ms e h = elim (Bool-cases c.is_cluster) [
    | inl cluster ↦ rw (cluster, write_all) (run_each-acts ms e h)
    | inr single ↦ rw (single, write_all) (transaction_lem ms e h)
  ]
