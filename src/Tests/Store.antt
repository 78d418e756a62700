-- ===== src/Tests/Store.antt =====
-- A small Redis: each kind of value under its own names, and one group of readers.
use text.Mathlib.Text.{starts_with}
use text.Mathlib.TextPositions.{slice-append_left}
use text.Mathlib.TextLemmas.{append_assoc}
use Prim.Native.String.{◌++◌ as text_append}
use ansuman_nsfw_detection_s.Base.{
  ℕ, ◌+◌, ◌≡◌, refl, sym, subst, eq_iff, inl, inr, String, false, Option, none, some, List, [], ◌∷◌,
  ◌++◌, str_eq, drop, take, Bool-cases, if◌then◌else◌,
}
use ansuman_nsfw_detection_s.Base.Text.{str}
use ansuman_nsfw_detection_s.Base.Dict.{lookup, string_eq}
use ansuman_nsfw_detection_s.Errors.{ok, raised, other, class_name}
use ansuman_nsfw_detection_s.Effects.{M}
use ansuman_nsfw_detection_s.Settings.{Settings}
use ansuman_nsfw_detection_s.Queue.Job.{Mapping}
use ansuman_nsfw_detection_s.Queue.Stream.{
  Command, hset, set, set_nx, xadd, xack, Raw, mapping, Client, Reply,
}
use ansuman_nsfw_detection_s.Queue.Redis.{job_key, unique_key, video_id_key}
use ansuman_nsfw_detection_s.Queue.Redis.Server.{
  Kind, hash, scalar, stream, or_kept, field_after, text_after, waiting_after, Keyed, Server,
}
use ansuman_nsfw_detection_s.Queue.Redis.Delivery.{Reads, reply_of}
use ansuman_nsfw_detection_s.Tests.Fixtures.{settings}

pub record Store : Type 0 where
  pub hashes : String → Mapping
  pub texts_of : String → Option String
  pub streams : String → List (String × Raw)
  pub added : ℕ

abbrev pub act : Command → Store → Store
act (hset k d) e = record e { hashes = λ j. if str_eq k j then d ++ e.hashes j else e.hashes j }
act (set k v) e = record e { texts_of = λ j. if str_eq k j then some v else e.texts_of j }
act (set_nx k v) e = record e {
  texts_of = λ j. if str_eq k j then or_kept (e.texts_of j) (some v) else e.texts_of j;
}
act (xadd t d) e = record e {
  streams = λ s. if str_eq t s then e.streams s ++ (str e.added, mapping d) ∷ [] else e.streams s;
  added = e.added + 1;
}
act (xack t g i) e = e

abbrev pub acted : List Command → Store → Store
acted [] e = e
acted (m ∷ ms) e = acted ms (act m e)

abbrev pub read_from : String → ℕ → Store → Store
read_from t count e = record e {
  streams = λ s. if str_eq t s then drop count (e.streams s) else e.streams s;
}

-- One stream at a time; only ">" asks for what waits.
abbrev pub read_streams : List (String × String) → ℕ → M Store Reply
read_streams ((t, id) ∷ []) count e =
    if str_eq id ">"
    then (ok (reply_of t (take count (e.streams t))), read_from t count e)
    else (ok (reply_of t []), e)
read_streams _ count e = (raised (other "ResponseError" "streams"), e)

abbrev pub client : Client Store
client = record {
  is_cluster = false;
  hgetall = λ k e. (ok (e.hashes k), e);
  get = λ k e. (ok (e.texts_of k), e);
  run = λ m e. (ok tt, act m e);
  transaction = λ ms e. (ok tt, acted ms e);
  xgroup_create = λ t g e. (ok tt, e);
  is_response_error = λ x. str_eq (class_name x) "ResponseError";
  xreadgroup = λ g consumer streams count block e. read_streams streams count e;
  get_node_from_key = λ k. none;
}

-- The kinds of the keys: what the repository's prefixes say, and a stream for any other key.
abbrev pub kind_of : String → Kind
kind_of k =
    if starts_with k "nsfw:video_job_"
    then scalar
    else if starts_with k "nsfw:video_job:"
    then hash
    else stream

lookup-append : (f : String) (d h : Mapping) → lookup f (d ++ h) ≡ or_kept (lookup f d) (lookup f h)
unfolding lookup
lookup-append f [] h = refl
lookup-append f ((k, v) ∷ d) h = elim (Bool-cases (str_eq k f)) [
  | inl here ↦ rw here
  | inr apart ↦ rw apart (lookup-append f d h)
]

pub lookup-acted :
    (k f : String) (m : Command) (e : Store)
    → lookup f ((act m e).hashes k) ≡ field_after k f m (lookup f (e.hashes k))
lookup-acted k f (hset j d) e = elim (Bool-cases (str_eq j k)) [
  | inl here ↦ rw here (lookup-append f d (e.hashes k))
  | inr apart ↦ rw apart
]
lookup-acted k f (set j v) e = refl
lookup-acted k f (set_nx j v) e = refl
lookup-acted k f (xadd t d) e = refl
lookup-acted k f (xack t g i) e = refl

pub texts-acted :
    (k : String) (m : Command) (e : Store) → (act m e).texts_of k ≡ text_after k m (e.texts_of k)
texts-acted k (hset j d) e = refl
texts-acted k (set j v) e = refl
texts-acted k (set_nx j v) e = refl
texts-acted k (xadd t d) e = refl
texts-acted k (xack t g i) e = refl

pub streams-acted :
    (s : String) (m : Command) (e : Store)
    → (act m e).streams s ≡ waiting_after s (str e.added) m (e.streams s)
streams-acted s (hset j d) e = refl
streams-acted s (set j v) e = refl
streams-acted s (set_nx j v) e = refl
streams-acted s (xadd t d) e = refl
streams-acted s (xack t g i) e = refl

unfoldable pub server : Server client kind_of
server = record {
  hash_of = λ k e. e.hashes k;
  text_at = λ k e. e.texts_of k;
  waiting = λ s g e. e.streams s;
  next_id = λ s e. str e.added;
  act = act;
  hgetall_lem = λ k e h. refl;
  get_lem = λ k e h. refl;
  run_lem = λ m e h. refl;
  transaction-run = λ m ms e h. refl;
  transaction_empty = λ e. refl;
  lookup-act = lookup-acted;
  text_at-act = texts-acted;
  waiting-act = λ s g m e. streams-acted s m e;
}

job_key-kind : (id : String) → kind_of (job_key id) ≡ hash
unfolding job_key
job_key-kind id = rw (slice-append_left "nsfw:video_job:" id)

scalar-kind : (t : String) → kind_of (text_append "nsfw:video_job_" t) ≡ scalar
scalar-kind t = rw (slice-append_left "nsfw:video_job_" t)

unique_key-kind : (a b c : String) → kind_of (unique_key a b c) ≡ scalar
unfolding unique_key
unique_key-kind a b c =
    let rest = text_append a (text_append ":" (text_append b (text_append ":" c))) in
    subst (λ k. kind_of k ≡ scalar) (sym (append_assoc "nsfw:video_job_" "unique:" rest))
      (scalar-kind (text_append "unique:" rest))

video_id_key-kind : (v : String) → kind_of (video_id_key v) ≡ scalar
unfolding video_id_key
video_id_key-kind v =
    subst (λ k. kind_of k ≡ scalar) (sym (append_assoc "nsfw:video_job_" "by_video_id:" v))
      (scalar-kind (text_append "by_video_id:" v))

abbrev pub redis_settings : Settings
redis_settings = record settings { queue_stream_name = "jobs"; queue_dlq_stream_name = "dead" }

pub keys : Keyed kind_of redis_settings
keys = record {
  job_key_hash = job_key-kind;
  unique_key_scalar = unique_key-kind;
  video_id_key_scalar = video_id_key-kind;
  queue_stream = refl;
  dlq_stream = refl;
}

pub reader : Reads server
unfolding server
reader = record {
  read_state = λ t g count e. read_from t count e;
  xreadgroup_lem = λ t g consumer count block e h. refl;
  waiting-read = λ t g count e. rw ((eq_iff t t).1 refl);
}

abbrev pub blank : Store
blank = record { hashes = λ k. []; texts_of = λ k. none; streams = λ s. []; added = 0 }
