-- ===== src/Cache/Batch.antt =====
-- What internal/cache/tweet_cache.go and internal/cache/user_cache.go have in common: entries of one
-- kind, each as JSON under a key of its ID, read and written many at a time by one pipeline.
pub mod Sound
use aita.Common.{
  ℕ, ℤ, int_eq, is_nonpos, String, Option, none, some, List, [], ◌∷◌, map, if◌then◌else◌,
}
use aita.Errcode.{Error}
use aita.Exec.{Result, ok, err, panic, Exec, ◌>>=◌, pure, raise, crash}
use aita.Pkg.Json.{Json}
use aita.Pkg.Redis.{
  Key, Command, get, set_nx, Reply, Client, redis_nil, is_redis_nil, as_text, first_reply,
  rest_replies, piped, exec_all,
}

-- The IDs that a `Get` is queued for.
abbrev pub asked : List ℤ → List ℤ
asked [] = []
asked (id ∷ ids) = let rest = asked ids in if is_nonpos id then rest else id ∷ rest

module _ {A : Type 0} (json : Json A) where
  abbrev pub value_of : Result A → Option A
  value_of (ok a) = some a
  value_of (err e) = none
  value_of panic = none

  -- An entry that cannot be read or decoded is passed over.
  abbrev pub decoded : Result String → Option A
  decoded (ok bytes) = value_of (json.unmarshal bytes)
  decoded (err e) = none
  decoded panic = none

  -- The results, with the replies to the commands in the order of the IDs; `cmds[id]` is the last
  -- command for an ID.
  unfoldable pub gathered : (ℤ → Option A) → List ℤ → List Reply → ℤ → Option A
  gathered m [] replies = m
  gathered m (id ∷ ids) replies =
      gathered (λ j. if int_eq id j then decoded (as_text (first_reply replies)) else m j) ids
        (rest_replies replies)

  abbrev pub get_commands : (ℤ → Key) → List ℤ → List Command
  get_commands key_of ids = map (λ id. get (key_of id)) (asked ids)

  module _ {S : Type 0} (client : Client S) where
    -- After `Exec`: `on_nil` is what stands beside `redis.Nil`.
    abbrev pub finished : List ℤ → Option Error × List Reply → Exec S (Option (ℤ → Option A))
    finished ids (none, replies) = pure (some (gathered (λ j. none) (asked ids) replies))
    finished ids (some e, replies) = if is_redis_nil e then raise redis_nil else raise e

    abbrev pub get_many : (ℤ → Key) → List ℤ → Exec S (Option (ℤ → Option A))
    get_many key_of [] = pure (some (λ j. none))
    get_many key_of (id ∷ ids) = do
      executed ← piped client (get_commands key_of (id ∷ ids))
      finished (id ∷ ids) executed

    abbrev marshalled : (String → Exec S (Option Command)) → Result String → Exec S (Option Command)
    marshalled make (ok bytes) = make bytes
    marshalled make (err e) = pure none
    marshalled make panic = crash

    abbrev with_command : Option Command → List Command → List Command
    with_command none rest = rest
    with_command (some c) rest = c ∷ rest

    -- The commands of the entries that could be encoded, each with a time to live of its own.
    unfoldable pub set_commands : (A → Key) → Exec S ℕ → List A → Exec S (List Command)
    set_commands key_of ttl [] = pure []
    set_commands key_of ttl (a ∷ entries) = do
      c ←
          marshalled (λ bytes. (do t ← ttl; pure (some (set_nx (key_of a) bytes t))))
            (json.marshal a)
      rest ← set_commands key_of ttl entries
      pure (with_command c rest)

    abbrev executed_set : List Command → Exec S Unit
    executed_set [] = pure tt
    executed_set (c ∷ cs) = exec_all client (c ∷ cs)

    abbrev pub set_many : (A → Key) → Exec S ℕ → List A → Exec S Unit
    set_many key_of ttl entries = do cs ← set_commands key_of ttl entries; executed_set cs
