-- ===== src/Queue/Stream.antt =====
-- app/repositories/kvrocks/queue_repository.py: the commands that the Redis queue sends, and how it
-- reads a stream. redis-py is a parameter: `Client` has the calls that the repository makes of it, and
-- `Node` those that it makes of a cluster's node.
pub mod Leases
use ansuman_nsfw_detection_s.Base.{ℕ, String, Bool, true, false, Option, none, some, List, [], ◌∷◌}
use ansuman_nsfw_detection_s.Base.Text.{str}
use ansuman_nsfw_detection_s.Errors.{PyException, other}
use ansuman_nsfw_detection_s.Effects.{M, ◌>>=◌, ◌>>◌, pure, raise, finally}
use ansuman_nsfw_detection_s.Queue.Job.{Mapping}
use Prim.Native.String.{◌++◌ as text_append}

-- The commands that answer nothing the repository reads.
pub data Command : Type 0 where
  hset : String → Mapping → Command
  set set_nx : String → String → Command
  xadd : String → Mapping → Command
  xack : String → String → String → Command

-- The fields of an entry: a dict, a flat list of keys and values in turn, or anything else.
pub data Raw : Type 0 where
  mapping : Mapping → Raw
  flat : List String → Raw
  opaque : Raw

-- What a read of streams answers; None is the protocol's nil.
abbrev pub Reply : Type 0
Reply = Option (List (String × List (String × Raw)))

-- The calls of one connection of a cluster's node.
pub record Node (E : Type 0) : Type 0 where
  pub acquire_connection : M E (Unit {0})
  pub disconnect_if_needed : M E (Unit {0})
  pub send_packed_command : List String → M E (Unit {0})
  pub read_response : M E Reply
  pub release : M E (Unit {0})

pub record Client (E : Type 0) : Type 0 where
  pub is_cluster : Bool
  -- isinstance(exc, ResponseError), by redis-py's classes
  pub is_response_error : PyException → Bool
  pub hgetall : String → M E Mapping
  pub get : String → M E (Option String)
  pub run : Command → M E (Unit {0})
  -- A pipeline with `transaction=True`, at `execute`.
  pub transaction : List Command → M E (Unit {0})
  pub xgroup_create : String → String → M E (Unit {0})
  -- Of a group, a consumer, the streams with the ids to read after, a count and a time to block.
  pub xreadgroup : String → String → List (String × String) → ℕ → ℕ → M E Reply
  pub get_node_from_key : String → Option (Node E)

abbrev pub command_of : String → String → String → ℕ → ℕ → List String
command_of stream group consumer count block_ms =
    "XREADGROUP"
    ∷ "GROUP"
    ∷ group
    ∷ consumer
    ∷ "COUNT"
    ∷ str count
    ∷ "BLOCK"
    ∷ str block_ms
    ∷ "STREAMS"
    ∷ stream
    ∷ ">"
    ∷ []

module _ {E : Type 0} where
  -- The end of a read from a node: `read_response`, and what is done with the connection after it.
  unfoldable pub answer_of : Node E → M E Reply
  answer_of node = finally node.read_response (finally node.disconnect_if_needed node.release)

  unfoldable pub read_from_node : Node E → List String → M E Reply
  unfolding answer_of
  read_from_node node command = do
    node.acquire_connection
    node.disconnect_if_needed
    node.send_packed_command command
    answer_of node

  abbrev from_node : Option (Node E) → String → List String → M E Reply
  from_node none stream command =
      raise (
        other "RuntimeError"
          (text_append "could not resolve Redis cluster node for stream " stream))
  from_node (some node) stream command = read_from_node node command

  abbrev by_client : Bool → Client E → String → String → String → ℕ → ℕ → M E Reply
  by_client false c stream group consumer count block_ms =
      c.xreadgroup group consumer ((stream, ">") ∷ []) count block_ms
  by_client true c stream group consumer count block_ms =
      from_node (c.get_node_from_key stream) stream
        (command_of stream group consumer count block_ms)

  -- `RedisVideoQueueRepository._xreadgroup`
  unfoldable pub xreadgroup : Client E → String → String → String → ℕ → ℕ → M E Reply
  unfolding read_from_node
  xreadgroup c stream group consumer count block_ms =
      by_client c.is_cluster c stream group consumer count block_ms
