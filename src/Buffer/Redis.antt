-- ===== src/Buffer/Redis.antt =====
-- app/repositories/kvrocks/clickhouse_buffer_repository.py, the buffers as lists in Redis. redis-py is a
-- record of calls, `json.dumps` and `json.loads` are parameters.
pub mod Lists
use ansuman_nsfw_detection_s.Base.{ℕ, zero, suc, String, List, [], ◌∷◌}
use ansuman_nsfw_detection_s.Base.Int.{ℤ, pos, negsuc}
use ansuman_nsfw_detection_s.Errors.{Outcome, ok, raised, ◌>>=◌}
use ansuman_nsfw_detection_s.Effects
use ansuman_nsfw_detection_s.Effects.{M, lift}
use ansuman_nsfw_detection_s.Json.{Fields}

-- `rpush` of one text, `lrange` and `ltrim`.
pub record Client (E : Type 0) : Type 0 where
  pub rpush : String → String → M E (Unit {0})
  pub lrange : String → ℤ → ℤ → M E (List String)
  pub ltrim : String → ℤ → ℤ → M E (Unit {0})

-- limit - 1
abbrev pub last_index : ℕ → ℤ
last_index zero = negsuc 0
last_index (suc n) = pos n

module _ {E : Type 0} (client : Client E) (dumps : Fields → String)
    (loads : String → Outcome Fields) where
  unfoldable pub push_json : String → Fields → M E (Unit {0})
  push_json key payload = client.rpush key (dumps payload)

  -- `[json.loads(item) for item in raw_items]`
  unfoldable pub loaded : List String → Outcome (List Fields)
  loaded [] = ok []
  loaded (item ∷ items) = do payload ← loads item; rest ← loaded items; ok (payload ∷ rest)

  unfoldable pub read_batch : String → ℕ → M E (List Fields)
  unfolding loaded
  read_batch key limit e =
      Effects.after (client.lrange key (pos 0) (last_index limit) e) (λ raw. lift (loaded raw))

  unfoldable pub trim_batch : String → ℕ → M E (Unit {0})
  trim_batch key count = client.ltrim key (pos count) (negsuc 0)
