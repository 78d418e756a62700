-- ===== src/Queue/Redis/Delivery.antt =====
-- How the entries of the stream reach the workers of the group, on a client that is no cluster's.
use mathlib.Core.List.{append_assoc, append-nil, map-append}
use ansuman_nsfw_detection_s.Base.{
  ℕ, ◌≤◌, ◌≡◌, refl, sym, ap, ◌∙◌, inl, inr, String, false, some, List, [], ◌∷◌, ◌++◌, map, All,
  take, drop, take-append-drop, str_eq, if◌then◌else◌, Bool-cases,
}
use ansuman_nsfw_detection_s.Errors.{ok}
use ansuman_nsfw_detection_s.Effects.{M, ◌>>=◌, ◌>>◌, pure}
use ansuman_nsfw_detection_s.Settings.{Settings}
use ansuman_nsfw_detection_s.Queue.Job.{DateText}
use ansuman_nsfw_detection_s.Queue.Memory.{QueuedVideoJobMessage}
use ansuman_nsfw_detection_s.Queue.Stream.{
  Client, Command, hset, set, set_nx, xadd, xack, Raw, mapping, Reply, xreadgroup,
}
use ansuman_nsfw_detection_s.Queue.Redis.{
  Texts, message_of, messages_of, messages_of_reply, read_video_job_messages,
}
use ansuman_nsfw_detection_s.Queue.Redis.Server.{Kind, Fits, Server}

-- The reply to a read of one stream, which has no item for a stream with nothing to read.
abbrev pub reply_of : String → List (String × Raw) → Reply
reply_of t [] = some []
reply_of t (x ∷ l) = some ((t, x ∷ l) ∷ [])

-- XREADGROUP of one stream with the id ">" gives the first entries that the group was not given before, at most `count` of them, and they wait no more, whether or not they are acknowledged.
pub record Reads {E : Type 0} {c : Client E} {kind : String → Kind} (s : Server c kind)
    : Type 0 where
  pub read_state : String → String → ℕ → E → E
  pub xreadgroup_lem :
      (t g consumer : String) (count block_ms : ℕ) (e : E)
      → 1 ≤ count
      → c.xreadgroup g consumer ((t, ">") ∷ []) count block_ms e
        ≡ (ok (reply_of t (take count (s.waiting t g e))), read_state t g count e)
  pub waiting-read :
      (t g : String) (count : ℕ) (e : E)
      → s.waiting t g (read_state t g count e) ≡ drop count (s.waiting t g e)

-- What workers do with the queue: reads, and commands such as acknowledgements and new entries.
pub data Step : Type 0 where
  read : String → ℕ → ℕ → Step
  command : Command → Step

module _ {E : Type 0} {c : Client E} {kind : String → Kind} (dates : DateText) (texts : Texts)
    (settings : Settings) (s : Server c kind) (reads : Reads s) where
  -- The messages that a sequence of steps delivers.
  abbrev pub deliver : List Step → M E (List QueuedVideoJobMessage)
  deliver [] = pure []
  deliver (read consumer count block_ms ∷ steps) = do
    messages ← read_video_job_messages dates texts settings c consumer count block_ms
    rest ← deliver steps
    pure (messages ++ rest)
  deliver (command m ∷ steps) = do c.run m; deliver steps

  abbrev pub IsStep : Step → Type 0
  IsStep (read consumer count block_ms) = 1 ≤ count
  IsStep (command m) = Fits kind m

  abbrev pub state_after : Step → E → E
  state_after (read consumer count block_ms) e =
      reads.read_state settings.queue_stream_name settings.queue_group_name count e
  state_after (command m) e = s.act m e

  abbrev pub states_after : List Step → E → E
  states_after [] e = e
  states_after (x ∷ steps) e = states_after steps (state_after x e)

  abbrev pub waiting_entries : E → List (String × Raw)
  waiting_entries e = s.waiting settings.queue_stream_name settings.queue_group_name e

  -- The entry that a step adds to the stream.
  abbrev pub new_entry : Step → E → List (String × Raw)
  new_entry (command (xadd t d)) e =
      if str_eq t settings.queue_stream_name
      then (s.next_id settings.queue_stream_name e, mapping d) ∷ []
      else []
  new_entry (command (hset k d)) e = []
  new_entry (command (set k v)) e = []
  new_entry (command (set_nx k v)) e = []
  new_entry (command (xack t g i)) e = []
  new_entry (read consumer count block_ms) e = []

  abbrev pub new_entries : List Step → E → List (String × Raw)
  new_entries [] e = []
  new_entries (x ∷ steps) e = new_entry x e ++ new_entries steps (state_after x e)

  abbrev messages : List (String × Raw) → List QueuedVideoJobMessage
  messages l = map (message_of texts) l

  waiting-command :
      (m : Command) (e : E)
      → waiting_entries (s.act m e) ≡ waiting_entries e ++ new_entry (command m) e
  waiting-command (xadd t d) e =
      s.waiting-act _ _ (xadd t d) e ∙ (elim (Bool-cases (str_eq t settings.queue_stream_name)) [
        | inl h ↦ rw h
        | inr h ↦ rw (h, append-nil)
      ])
  waiting-command (hset k d) e = s.waiting-act _ _ (hset k d) e ∙ rw append-nil
  waiting-command (set k v) e = s.waiting-act _ _ (set k v) e ∙ rw append-nil
  waiting-command (set_nx k v) e = s.waiting-act _ _ (set_nx k v) e ∙ rw append-nil
  waiting-command (xack t g i) e = s.waiting-act _ _ (xack t g i) e ∙ rw append-nil

  messages-reply :
      (t : String) (l : List (String × Raw)) (e : E)
      → messages_of_reply texts (reply_of t l) e ≡ (ok (messages l), e)
  unfolding messages_of
  messages-reply t [] e = refl
  messages-reply t (x ∷ l) e = rw append-nil

  read_lem :
      (consumer : String) (count block_ms : ℕ) (e : E)
      → c.is_cluster ≡ false
      → 1 ≤ count
      → read_video_job_messages dates texts settings c consumer count block_ms e ≡ (
        ok (messages (take count (waiting_entries e))),
        state_after (read consumer count block_ms) e,
      )
  unfolding read_video_job_messages xreadgroup
  read_lem consumer count block_ms e single positive =
      rw
        (
          single,
          xreadgroup,
          read_video_job_messages,
          reads.xreadgroup_lem _ _ consumer count block_ms e positive,
        )
        (messages-reply _ _ _)

  messages-split :
      (n : ℕ) (w new : List (String × Raw)) (ms rest : List QueuedVideoJobMessage)
      → ms ++ rest ≡ messages (drop n w ++ new)
      → (messages (take n w) ++ ms) ++ rest ≡ messages (w ++ new)
  messages-split n w new ms rest h =
      append_assoc (messages (take n w)) ms rest
      ∙ ap (λ l. messages (take n w) ++ l) h
      ∙ sym (map-append (message_of texts) (take n w) (drop n w ++ new))
      ∙ ap messages (
          sym (append_assoc (take n w) (drop n w) new)
          ∙ ap (λ (l : List (String × Raw)). l ++ new) (take-append-drop n w))

  -- On a server that answers a client of its own, not a cluster's, any sequence of reads of one message or more, after the id ">", and of commands on keys of their kinds delivers the waiting entries and those that are added on the way, each at most once and in the order of the stream, whatever is acknowledged: the delivered messages followed by the messages of the entries that wait at the end are those of the entries that waited at the start followed by the new ones.
  pub deliver_once :
      c.is_cluster ≡ false
      → (steps : List Step) → All IsStep steps
      → (e : E)
      → (ms : List QueuedVideoJobMessage) × (deliver steps e ≡ (ok ms, states_after steps e))
        × (ms ++ map (message_of texts) (waiting_entries (states_after steps e))
            ≡ map (message_of texts) (waiting_entries e ++ new_entries steps e))
  deliver_once single [] fits e = ([], refl, rw append-nil)
  deliver_once single (read consumer count block_ms ∷ steps) (positive, fits) e =
      let e' = state_after (read consumer count block_ms) e in
      let (ms, answer, order) = deliver_once single steps fits e' in
      (
        messages (take count (waiting_entries e)) ++ ms,
        rw (read_lem consumer count block_ms e single positive, answer) refl,
        messages-split count (waiting_entries e) (new_entries steps e') ms _ (
            order
            ∙ ap (λ w. messages (w ++ new_entries steps e')) (reads.waiting-read _ _ count e)),
      )
  deliver_once single (command m ∷ steps) (fit, fits) e =
      let (ms, answer, order) = deliver_once single steps fits (s.act m e) in
      (
        ms,
        rw (s.run_lem m e fit) answer,
        order
            ∙ ap (λ w. messages (w ++ new_entries steps (s.act m e))) (waiting-command m e)
            ∙ ap messages (append_assoc (waiting_entries e) (new_entry (command m) e) _),
      )
