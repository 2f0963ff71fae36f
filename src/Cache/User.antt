-- ===== src/Cache/User.antt =====
-- internal/cache/user_cache.go. The two counters of a user stand in a hash, by the names of its
-- fields; the conversions of strconv are those of `Codec`.
pub mod Sound
use aita.Common.{
  ℕ, ◌-◌, ◌*◌, ltb, length, ℤ, pos, int_eq, String, str_eq, Bool, Option, none, some, List, [], ◌∷◌,
  if◌then◌else◌,
}
use aita.Errcode.{Error}
use aita.Exec.{Result, ok, err, panic, Exec, ◌>>=◌, pure, raise, crash}
use aita.Models.{UserInfo}
use aita.Dto.TimeLine.{Codec, parse_int64}
use aita.Pkg.Json.{Json}
use aita.Pkg.Pool.{ignore}
use aita.Pkg.Redis.{
  user_data, user_count, Command, set, get, del, exists, expire, h_set, h_get_all, h_incr_by, Reply,
  fields, Client, redis_nil, is_redis_nil, as_text, as_number, as_unit, first_reply, rest_replies,
  ask, piped, exec_all,
}
use aita.Pkg.Utils.{Rand, minute, hour, get_random_expiration}
use aita.Repository.User.{UserCache}
use aita.Cache.Batch.{get_many, set_many}

abbrev follower_field : String
follower_field = "follower"

abbrev following_field : String
following_field = "following"

-- `counts[name]`, the empty text where the name is missing.
abbrev pub field_of : String → List (String × String) → String
field_of name [] = ""
field_of name ((n, v) ∷ rest) = if str_eq n name then v else field_of name rest

-- `countCmd.Val()`, nothing where the command failed.
abbrev pub fields_of : Reply → List (String × String)
fields_of (fields fs) = fs
fields_of _ = []

module _ {S : Type 0} (c : Codec) (json : Json UserInfo) (rand : Rand S) (client : Client S) where
  -- The bytes that `json.Marshal` gives beside a dropped error: none.
  abbrev bytes_of : Result String → Exec S String
  bytes_of (ok bytes) = pure bytes
  bytes_of (err e) = pure ""
  bytes_of panic = crash

  -- The time to live is above 30 minutes.
  abbrev pub add_commands : UserInfo → String → ℕ → ℤ → ℤ → List Command
  add_commands info bytes ttl fllwr_count fllwng_count =
      set (user_data info.id) bytes ttl
      ∷ h_set (user_count info.id)
          ((follower_field, fllwr_count) ∷ (following_field, fllwng_count) ∷ [])
      ∷ expire (user_count info.id) (ttl - 30 * minute)
      ∷ []

  abbrev lifetime : Exec S ℕ
  lifetime = get_random_expiration rand (pos (72 * hour)) (pos (3 * hour))

  abbrev add_known : UserInfo → ℤ → ℤ → Exec S Unit
  add_known info fllwr_count fllwng_count = do
    bytes ← bytes_of (json.marshal info)
    ttl ← lifetime
    exec_all client (add_commands info bytes ttl fllwr_count fllwng_count)

  -- Add
  unfoldable pub add : Option UserInfo → ℤ → ℤ → Exec S Unit
  add none fllwr_count fllwng_count = crash
  add (some info) fllwr_count fllwng_count = add_known info fllwr_count fllwng_count

  abbrev set_marshalled : UserInfo → Result String → Exec S Unit
  set_marshalled info (ok bytes) = do
    ttl ← lifetime
    ignore (ask client as_unit (set (user_data info.id) bytes ttl))
  set_marshalled info (err e) = pure tt
  set_marshalled info panic = crash

  -- AddInfoOnly
  unfoldable pub add_info_only : Option UserInfo → Exec S Unit
  add_info_only none = crash
  add_info_only (some info) = set_marshalled info (json.marshal info)

  -- Invalidate
  unfoldable pub invalidate : ℤ → Exec S Unit
  invalidate user_id =
      ignore (exec_all client (del (user_data user_id) ∷ del (user_count user_id) ∷ []))

  abbrev pub get_commands : ℤ → List Command
  get_commands user_id = get (user_data user_id) ∷ h_get_all (user_count user_id) ∷ []

  -- What `info` is after decoding: the zero record where it failed.
  abbrev decoded : Result UserInfo → Exec S UserInfo
  decoded (ok info) = pure info
  decoded (err e) = pure (record { id = pos 0; username = "" })
  decoded panic = crash

  -- With `dataBytes` and the counters.
  abbrev read : Result String → List (String × String) → Exec S (Option UserInfo × ℤ × ℤ)
  read (ok bytes) counts = do
    info ← decoded (json.unmarshal bytes)
    if ltb (length counts) 2
        then raise redis_nil
        else pure (
          some info,
          parse_int64 c (field_of follower_field counts),
          parse_int64 c (field_of following_field counts),
        )
  read (err e) counts = raise redis_nil
  read panic counts = crash

  abbrev got : Option Error × List Reply → Exec S (Option UserInfo × ℤ × ℤ)
  got (some e, replies) = if is_redis_nil e then raise redis_nil else raise e
  got (none, replies) =
      read (as_text (first_reply replies)) (fields_of (first_reply (rest_replies replies)))

  -- Get
  unfoldable pub get_user : ℤ → Exec S (Option UserInfo × ℤ × ℤ)
  get_user user_id = do executed ← piped client (get_commands user_id); got executed

  -- IncrFollower
  unfoldable pub incr_follower : ℤ → ℤ → Exec S Unit
  incr_follower user_id delta =
      ask client as_unit (h_incr_by (user_count user_id) follower_field delta)

  -- IncrFollowing
  unfoldable pub incr_following : ℤ → ℤ → Exec S Unit
  incr_following user_id delta =
      ask client as_unit (h_incr_by (user_count user_id) following_field delta)

  -- Exists
  unfoldable pub user_exists : ℤ → Exec S Bool
  user_exists user_id = do
    n ← ask client as_number (exists (user_data user_id ∷ user_count user_id ∷ []))
    pure (int_eq n (pos 2))

  -- GetLists
  unfoldable pub get_lists : List ℤ → Exec S (Option (ℤ → Option UserInfo))
  get_lists user_ids = get_many json client user_data user_ids

  abbrev present : List (Option UserInfo) → List UserInfo
  present [] = []
  present (none ∷ infos) = present infos
  present (some info ∷ infos) = info ∷ present infos

  -- AddLists
  unfoldable pub add_lists : List (Option UserInfo) → Exec S Unit
  add_lists infos = set_many json client (λ i. user_data i.id) lifetime (present infos)

  -- The cache as the interface of the repository.
  unfoldable pub as_cache : UserCache S
  as_cache = record {
    add = add;
    invalidate = invalidate;
    get = get_user;
    exists = user_exists;
    get_lists = get_lists;
    add_lists = add_lists;
  }
