-- ===== src/Tests/Buffers.antt =====
-- The theorem on the buffers in Redis at concrete commands.
use ansuman_nsfw_detection_s.Base.{suc, ◌≡◌, refl, String, List, [], ◌∷◌, ◌++◌, take, drop}
use ansuman_nsfw_detection_s.Base.Dict.{lookup}
use ansuman_nsfw_detection_s.Base.Int.{ℤ, pos, negsuc}
use ansuman_nsfw_detection_s.Errors.{Outcome, ok, raised, other}
use ansuman_nsfw_detection_s.Effects.{M}
use ansuman_nsfw_detection_s.Json.{null, Fields, end, field}
use ansuman_nsfw_detection_s.Buffer.{contents}
use ansuman_nsfw_detection_s.Buffer.Redis.{Client}
use ansuman_nsfw_detection_s.Buffer.Redis.Lists.{
  Server, Command, push, read, trim, all_in_memory, all_in_redis, all_in_redis-refines, Holds,
}

-- A server with one list under every key.
abbrev ranged : ℤ → List String → M (List String) (List String)
ranged (pos n) l e = (ok (take (suc n) l), e)
ranged (negsuc n) l e = (ok l, e)

abbrev trimmed : ℤ → ℤ → M (List String) (Unit {0})
trimmed (pos n) stop l = (ok tt, drop n l)
trimmed (negsuc n) stop l = (raised (other "ResponseError" "start"), l)

abbrev client : Client (List String)
client = record {
  rpush = λ key text l. (ok tt, l ++ text ∷ []);
  lrange = λ key start stop l. ranged stop l l;
  ltrim = λ key start stop l. trimmed start stop l;
}

abbrev server : Server client
server = record {
  list = λ key l. l;
  rpush_lem = λ key text l. (refl, refl);
  lrange_lem = λ key n l. refl;
  lrange_all = λ key l. refl;
  ltrim_lem = λ key n l. (refl, refl);
}

-- A payload's first name is its text.
abbrev dumps : Fields → String
dumps end = ""
dumps (field name v rest) = name

abbrev loads : String → Outcome Fields
loads text = ok (field text null end)

abbrev payload : String → Fields
payload name = field name null end

abbrev commands : List Command
commands = push (payload "a") ∷ push (payload "b") ∷ read 0 ∷ trim 1 ∷ read 1 ∷ []

nothing_held : Holds client dumps loads server "key" [] []
unfolding contents lookup
nothing_held = tt

all_in_redis-refines_example :
    ((all_in_redis client dumps loads server "key" commands []).0
      ≡ ok (all_in_memory "key" commands []).0)
    × Holds client dumps loads server "key"
        (all_in_redis client dumps loads server "key" commands []).1
        (all_in_memory "key" commands []).1
all_in_redis-refines_example =
    all_in_redis-refines client dumps loads server "key" commands [] [] nothing_held
      (refl, (refl, (tt, (tt, (tt, tt)))))
