-- ===== src/Buffer/Redis/Lists.antt =====
-- The buffers in Redis do what those in memory do.
use ansuman_nsfw_detection_s.Base.{
  ℕ, zero, suc, ◌≡◌, refl, String, List, [], ◌∷◌, ◌++◌, take, drop, All,
}
use ansuman_nsfw_detection_s.Base.Int.{pos, negsuc}
use ansuman_nsfw_detection_s.Base.Dict.{lookup-insert_self}
use ansuman_nsfw_detection_s.Errors.{Outcome, ok, raised, ok-injective}
use ansuman_nsfw_detection_s.Effects.{M, after, pure}
use ansuman_nsfw_detection_s.Json.{Fields}
use ansuman_nsfw_detection_s.Buffer
use ansuman_nsfw_detection_s.Buffer.{Buffers, contents}
use ansuman_nsfw_detection_s.Buffer.Redis.{Client, push_json, loaded, read_batch, trim_batch}

-- What RPUSH, LRANGE from the first item and LTRIM to the last do to a list of a server that answers.
pub record Server {E : Type 0} (client : Client E) : Type 1 where
  pub list : String → E → List String
  pub rpush_lem :
      (key text : String) (e : E)
      → ((client.rpush key text e).0 ≡ ok tt)
        × (list key (client.rpush key text e).1 ≡ list key e ++ text ∷ [])
  pub lrange_lem :
      (key : String) (n : ℕ) (e : E)
      → client.lrange key (pos 0) (pos n) e ≡ (ok (take (suc n) (list key e)), e)
  pub lrange_all :
      (key : String) (e : E) → client.lrange key (pos 0) (negsuc 0) e ≡ (ok (list key e), e)
  pub ltrim_lem :
      (key : String) (n : ℕ) (e : E)
      → ((client.ltrim key (pos n) (negsuc 0) e).0 ≡ ok tt)
        × (list key (client.ltrim key (pos n) (negsuc 0) e).1 ≡ drop n (list key e))

-- The texts are read as the payloads, each as the one in its place.
abbrev pub Reads : (String → Outcome Fields) → List String → List Fields → Type 0
Reads loads [] [] = Unit {0}
Reads loads (t ∷ ts) (x ∷ xs) = (loads t ≡ ok x) × Reads loads ts xs
Reads loads _ _ = ⊥

module _ (loads : String → Outcome Fields) where
  take-Reads :
      (n : ℕ) (ts : List String) (xs : List Fields)
      → Reads loads ts xs
      → Reads loads (take n ts) (take n xs)
  take-Reads zero ts xs h = tt
  take-Reads (suc n) [] [] h = tt
  take-Reads (suc n) (t ∷ ts) (x ∷ xs) (e, h) = (e, take-Reads n ts xs h)
  take-Reads (suc n) [] (x ∷ xs) h = elim h [ ]
  take-Reads (suc n) (t ∷ ts) [] h = elim h [ ]

  drop-Reads :
      (n : ℕ) (ts : List String) (xs : List Fields)
      → Reads loads ts xs
      → Reads loads (drop n ts) (drop n xs)
  drop-Reads zero ts xs h = h
  drop-Reads (suc n) [] [] h = tt
  drop-Reads (suc n) (t ∷ ts) (x ∷ xs) (e, h) = drop-Reads n ts xs h
  drop-Reads (suc n) [] (x ∷ xs) h = elim h [ ]
  drop-Reads (suc n) (t ∷ ts) [] h = elim h [ ]

  snoc-Reads :
      (ts : List String) (xs : List Fields) (t : String) (x : Fields)
      → Reads loads ts xs
      → loads t ≡ ok x
      → Reads loads (ts ++ t ∷ []) (xs ++ x ∷ [])
  snoc-Reads [] [] t x h e = (e, tt)
  snoc-Reads (u ∷ ts) (y ∷ xs) t x (d, h) e = (d, snoc-Reads ts xs t x h e)
  snoc-Reads [] (y ∷ xs) t x h e = elim h [ ]
  snoc-Reads (u ∷ ts) [] t x h e = elim h [ ]

-- Commands on one buffer; a read asks for the number that is given and one more.
pub data Command : Type 0 where
  push : Fields → Command
  read trim : ℕ → Command

abbrev pub in_memory : String → Command → Buffers → List Fields × Buffers
in_memory key (push payload) b = ([], Buffer.push_json key payload b)
in_memory key (read n) b = (Buffer.read_batch key (suc n) b, b)
in_memory key (trim n) b = ([], Buffer.trim_batch key n b)

abbrev pub all_in_memory : String → List Command → Buffers → List (List Fields) × Buffers
all_in_memory key [] b = ([], b)
all_in_memory key (c ∷ cs) b =
    let (answer, b') = in_memory key c b in
    let (answers, b'') = all_in_memory key cs b' in (answer ∷ answers, b'')

after-ok :
    {F A B : Type 0} (a : A) (p : Outcome A × F) (k : A → M F B) → p.0 ≡ ok a → after p k ≡ k a p.1
after-ok a (ok x, e) k h = rw (ok-injective h) refl
after-ok a (raised x, e) k h = absurd (cc)

module _ {E : Type 0} (client : Client E) (dumps : Fields → String)
    (loads : String → Outcome Fields) (server : Server client) where
  loaded-Reads :
      (ts : List String) (xs : List Fields)
      → Reads loads ts xs
      → loaded client dumps loads ts ≡ ok xs
  unfolding loaded
  loaded-Reads [] [] h = refl
  loaded-Reads (t ∷ ts) (x ∷ xs) (e, h) = rw (e, loaded-Reads ts xs h)
  loaded-Reads [] (x ∷ xs) h = elim h [ ]
  loaded-Reads (t ∷ ts) [] h = elim h [ ]

  -- The list of the server is read as a buffer in memory.
  abbrev pub Holds : String → E → Buffers → Type 0
  Holds key e b = Reads loads (server.list key e) (contents key b)

  -- A payload that is pushed is read back from its text.
  abbrev pub Readable : Command → Type 0
  Readable (push payload) = loads (dumps payload) ≡ ok payload
  Readable (read n) = Unit {0}
  Readable (trim n) = Unit {0}

  read_lem :
      (key : String) (n : ℕ) (e : E) (b : Buffers)
      → Holds key e b
      → read_batch client dumps loads key (suc n) e ≡ (ok (Buffer.read_batch key (suc n) b), e)
  unfolding read_batch Buffer.read_batch
  read_lem key n e b h = rw (
    server.lrange_lem key n e,
    loaded-Reads (take (suc n) (server.list key e)) (take (suc n) (contents key b))
        (take-Reads loads (suc n) (server.list key e) (contents key b) h),
  )

  push_lem :
      (key : String) (payload : Fields) (e : E) (b : Buffers)
      → Holds key e b
      → loads (dumps payload) ≡ ok payload
      → ((push_json client dumps loads key payload e).0 ≡ ok tt)
        × Holds key (push_json client dumps loads key payload e).1 (Buffer.push_json key payload b)
  unfolding push_json Buffer.push_json contents
  push_lem key payload e b h back = (
    (server.rpush_lem key (dumps payload) e).0,
    rw ((server.rpush_lem key (dumps payload) e).1, lookup-insert_self)
        (snoc-Reads loads (server.list key e) (contents key b) (dumps payload) payload h back),
  )

  trim_lem :
      (key : String) (n : ℕ) (e : E) (b : Buffers)
      → Holds key e b
      → ((trim_batch client dumps loads key n e).0 ≡ ok tt)
        × Holds key (trim_batch client dumps loads key n e).1 (Buffer.trim_batch key n b)
  unfolding trim_batch Buffer.trim_batch contents
  trim_lem key n e b h = (
    (server.ltrim_lem key n e).0,
    rw ((server.ltrim_lem key n e).1, lookup-insert_self)
        (drop-Reads loads n (server.list key e) (contents key b) h),
  )

  abbrev pub in_redis : String → Command → M E (List Fields)
  in_redis key (push payload) e = after (push_json client dumps loads key payload e) (λ _. pure [])
  in_redis key (read n) e = read_batch client dumps loads key (suc n) e
  in_redis key (trim n) e = after (trim_batch client dumps loads key n e) (λ _. pure [])

  abbrev pub all_in_redis : String → List Command → M E (List (List Fields))
  all_in_redis key [] e = (ok [], e)
  all_in_redis key (c ∷ cs) e =
      after (in_redis key c e)
        (λ answer e'. after (all_in_redis key cs e') (λ answers. pure (answer ∷ answers)))

  command_lem :
      (key : String) (c : Command) (e : E) (b : Buffers)
      → Holds key e b
      → Readable c
      → ((in_redis key c e).0 ≡ ok (in_memory key c b).0)
        × Holds key (in_redis key c e).1 (in_memory key c b).1
  command_lem key (push payload) e b h back =
      let (fine, held) = push_lem key payload e b h back in
      rw
        (after-ok {B = List Fields} tt (push_json client dumps loads key payload e) (λ _. pure [])
          fine)
        (refl, held)
  command_lem key (read n) e b h _ = rw (read_lem key n e b h) (refl, h)
  command_lem key (trim n) e b h _ =
      let (fine, held) = trim_lem key n e b h in
      rw (after-ok {B = List Fields} tt (trim_batch client dumps loads key n e) (λ _. pure []) fine)
        (refl, held)

  -- On a server that answers, whose list is read as a buffer in memory: pushes of payloads that are read back from their texts, trims, and reads of at least one payload, in any sequence, answer in Redis as in memory, and the list is then read as the buffer in memory again.
  pub all_in_redis-refines :
      (key : String) (cs : List Command) (e : E) (b : Buffers)
      → Holds key e b
      → All Readable cs
      → ((all_in_redis key cs e).0 ≡ ok (all_in_memory key cs b).0)
        × Holds key (all_in_redis key cs e).1 (all_in_memory key cs b).1
  all_in_redis-refines key [] e b h _ = (refl, h)
  all_in_redis-refines key (c ∷ cs) e b h (back, all_back) =
      let (fine, held) = command_lem key c e b h back in
      let (all_fine, all_held) =
        all_in_redis-refines key cs (in_redis key c e).1 (in_memory key c b).1 held all_back in
      rw
        (
          after-ok _ (in_redis key c e)
              (λ answer e'. after (all_in_redis key cs e') (λ answers. pure (answer ∷ answers)))
              fine,
          after-ok _ (all_in_redis key cs (in_redis key c e).1)
              (λ answers. pure ((in_memory key c b).0 ∷ answers)) all_fine,
        )
        (refl, all_held)
