-- ===== src/Pkg/Redis.antt =====
-- The client of github.com/redis/go-redis, as the caches, the session store and the message queue
-- call it: a parameter. The keys are the code's formats with their arguments; a command is the
-- method that the code calls with its arguments, and a reply is what its `Result` tells.
use aita.Common.{
  ℕ, ℤ, nat_eq, String, ◌≡◌, ◌⊎◌, Bool, false, Option, none, some, List, [], ◌∷◌, All, In,
}
use aita.Errcode.{Error, sentinel, wrapped, foreign}
use aita.Exec.{Result, ok, err, Exec}

-- "tweet:content:%d", "user:data:%d", "user:count:%d", "follow:following:%d", "follow:follower:%d",
-- "timeline:%d", "sessiondata:%s" and "sessionhash:%d"
pub data Key : Type 0 where
  tweet_content : ℤ → Key
  user_data : ℤ → Key
  user_count : ℤ → Key
  following : ℤ → Key
  follower : ℤ → Key
  timeline : ℤ → Key
  session_data : String → Key
  session_hash : ℤ → Key

-- Durations are in nanoseconds; `set_xx` takes the time at which the key is to expire.
pub data Command : Type 0 where
  get : Key → Command
  set : Key → String → ℕ → Command
  set_nx : Key → String → ℕ → Command
  set_xx : Key → String → ℕ → Command
  del : Key → Command
  unlink : Key → Command
  exists : List Key → Command
  expire : Key → ℕ → Command
  h_set : Key → List (String × ℤ) → Command
  h_get_all : Key → Command
  h_incr_by : Key → String → ℤ → Command
  s_add : Key → String → Command
  s_rem : Key → String → Command
  s_members : Key → Command
  z_add : Key → List (ℤ × ℤ) → Command
  z_rem : Key → String → Command
  z_rem_range_by_rank : Key → ℤ → ℤ → Command
  z_score : Key → String → Command
  z_range_rev : Key → ℤ → ℤ → Command

pub data Reply : Type 0 where
  nil_reply : Reply
  done : Reply
  text : String → Reply
  number : ℤ → Reply
  texts : List String → Reply
  fields : List (String × String) → Reply
  failed_with : Error → Reply

-- `pipeline` is `Exec`: the error that it returns, and a reply for each of the commands.
pub record Client (S : Type 0) : Type 0 where
  pub run : Command → S → Reply × S
  pub pipeline : List Command → S → (Option Error × List Reply) × S

-- `redis.Nil`
abbrev pub redis_nil : Error
redis_nil = foreign 100

-- A reply of another type than the command has.
abbrev pub odd_reply : Error
odd_reply = foreign 101

-- `errors.Is(err, redis.Nil)`
unfoldable pub is_redis_nil : Error → Bool
is_redis_nil (sentinel c) = false
is_redis_nil (wrapped e) = is_redis_nil e
is_redis_nil (foreign n) = nat_eq n 100

-- `cmd.Err()`
abbrev pub error_of : Reply → Option Error
error_of nil_reply = some redis_nil
error_of (failed_with e) = some e
error_of _ = none

abbrev pub as_text : Reply → Result String
as_text (text v) = ok v
as_text nil_reply = err redis_nil
as_text (failed_with e) = err e
as_text _ = err odd_reply

abbrev pub as_number : Reply → Result ℤ
as_number (number n) = ok n
as_number nil_reply = err redis_nil
as_number (failed_with e) = err e
as_number _ = err odd_reply

abbrev pub as_texts : Reply → Result (List String)
as_texts (texts vs) = ok vs
as_texts nil_reply = err redis_nil
as_texts (failed_with e) = err e
as_texts _ = err odd_reply

abbrev pub as_unit : Reply → Result (Unit {0})
as_unit nil_reply = err redis_nil
as_unit (failed_with e) = err e
as_unit _ = ok tt

-- The reply to a command of the pipeline, by its position.
abbrev pub first_reply : List Reply → Reply
first_reply [] = failed_with odd_reply
first_reply (r ∷ rs) = r

abbrev pub rest_replies : List Reply → List Reply
rest_replies [] = []
rest_replies (r ∷ rs) = rs

module _ {S : Type 0} (client : Client S) where
  -- A command outside a pipeline.
  abbrev pub ask : {A : Type 0} → (Reply → Result A) → Command → Exec S A
  ask read c s = let (r, s') = client.run c s in (read r, s')

  abbrev pub piped : List Command → Exec S (Option Error × List Reply)
  piped commands s = let (r, s') = client.pipeline commands s in (ok r, s')

  abbrev pub outcome : Option Error × List Reply → Result (Unit {0})
  outcome (none, rs) = ok tt
  outcome (some e, rs) = err e

  -- `_, err := pipe.Exec(ctx); return err`
  abbrev pub exec_all : List Command → Exec S Unit
  exec_all commands s = let (r, s') = client.pipeline commands s in (outcome r, s')

-- The value that a command gives a key of a plain text.
abbrev pub writes : Command → Option (Key × String)
writes (set k v t) = some (k, v)
writes (set_nx k v t) = some (k, v)
writes (set_xx k v t) = some (k, v)
writes _ = none

-- One of the commands writes the value under the key.
abbrev pub Writes : Key → String → List Command → Type 0
Writes k v [] = ⊥
Writes k v (c ∷ cs) = (writes c ≡ some (k, v)) ⊎ Writes k v cs

-- The command adds members under the key.
abbrev pub Adds : Key → Command → Type 0
Adds k (z_add k' members) = k' ≡ k
Adds k _ = ⊥

-- The command may bring the key into being.
abbrev pub Creates : Key → Command → Type 0
Creates k (set k' v t) = k' ≡ k
Creates k (set_nx k' v t) = k' ≡ k
Creates k (h_set k' values) = k' ≡ k
Creates k (h_incr_by k' field n) = k' ≡ k
Creates k (s_add k' member) = k' ≡ k
Creates k (z_add k' members) = k' ≡ k
Creates k _ = ⊥

abbrev pub IsGet : Command → Type 0
IsGet (get k) = Unit
IsGet _ = ⊥

-- The texts that Redis holds: what its commands may do to them. They lapse at any time.
module _ {S : Type 0} (held : S → Key → Option String) where
  pub record OnlySets (commands : List Command) (s s' : S) : Type 0 where
    pub each :
        (k : Key)
        → (held s' k ≡ held s k)
          ⊎ ((held s' k ≡ none) ⊎ ((v : String) × Writes k v commands × (held s' k ≡ some v)))

  -- No command writes a text but the ones of the kind `SET`, and `GET` answers what is held.
  pub record IsTextStore (client : Client S) : Type 0 where
    pub runs : (c : Command) (s : S) → OnlySets (c ∷ []) s (client.run c s).1
    pub pipes : (cs : List Command) (s : S) → OnlySets cs s (client.pipeline cs s).1
    pub gets :
        (k : Key) (s : S) (v : String) → (client.run (get k) s).0 ≡ text v → held s k ≡ some v

  -- What the reply to a command tells of what is held.
  abbrev pub Tells : S → Command → Reply → Type 0
  Tells s (get k) (text v) = held s k ≡ some v
  Tells s _ _ = Unit

  abbrev pub AllTell : S → List Command → List Reply → Type 0
  AllTell s [] rs = Unit
  AllTell s (c ∷ cs) rs = Tells s c (first_reply rs) × AllTell s cs (rest_replies rs)

  -- The replies of a pipeline of `GET`s that did not fail are those to its commands, in their
  -- order.
  pub record IsAnswering (client : Client S) : Type 0 where
    pub answers :
        (cs : List Command) (s : S) (rs : List Reply) (s' : S)
        → All IsGet cs
        → client.pipeline cs s ≡ ((none, rs), s')
        → AllTell s cs rs

  -- A pipeline of `GET`s, one of them of a key that is not held, returns an error: go-redis returns
  -- the first one of its commands, and `redis.Nil` is one.
  pub record IsRefusing (client : Client S) : Type 0 where
    pub fails :
        (cs : List Command) (k : Key) (s : S)
        → All IsGet cs
        → In (get k) cs
        → held s k ≡ none
        → (e : Error) × ((client.pipeline cs s).0.0 ≡ some e)
