-- ===== src/Cache/Follow.antt =====
-- internal/cache/follow_cache.go. A score is the whole number of seconds that the float64 holds.
pub mod Whole
use aita.Common.{
  ℕ, ◌+◌, ◌*◌, ◌/◌, ltb, ℤ, pos, negsuc, ◌+ℤ◌, int_eq, is_nonpos, String, Bool, true, false, not,
  ◌||◌, Option, none, some, List, [], ◌∷◌, ◌++◌, map, if◌then◌else◌,
}
use aita.Errcode.{Error}
use aita.Exec.{Result, ok, err, panic, Exec, ◌>>=◌, ◌>>◌, pure, raise}
use aita.Models.{CacheMember}
use aita.Dto.TimeLine.{Codec}
use aita.Pkg.Redis.{
  Key, following, follower, Command, del, exists, expire, z_add, z_score, z_range_rev, Reply,
  number, Client, redis_nil, error_of, as_number, as_texts, as_unit, first_reply, rest_replies, ask,
  piped, exec_all,
}
use aita.Pkg.Utils.{Rand, hour, get_random_expiration}
use aita.Cache.TimeLine.{parsed}
use aita.Repository.Follow.{FollowCache}

-- `cmd.Val()` of a command that answers a number: 0 where it failed.
abbrev pub number_of : Reply → ℤ
number_of (number n) = n
number_of _ = pos 0

abbrev pub succeeded : Reply → Bool
succeeded r = elim (error_of r) [ none ↦ true | some e ↦ false ]

abbrev pub members_of : List CacheMember → List (ℤ × ℤ)
members_of = map (λ m. (m.score, m.member))

module _ {S : Type 0} (c : Codec) (rand : Rand S) (client : Client S) where
  -- A block of the script `addFollowLua`, of what it adds to `added`.
  abbrev add_if_held : Key → ℤ → ℤ → ℕ → Exec S ℤ
  add_if_held key score member ttl = do
    held ← ask client as_number (exists (key ∷ []))
    if int_eq held (pos 1)
        then (do
          ask client as_unit (z_add key ((score, member) ∷ []))
          ask client as_unit (expire key ttl)
          pure (pos 1))
        else pure (pos 0)

  -- addFollowLua: its commands, which Redis runs with no others between them.
  unfoldable pub add_follow_lua : Key → Key → ℤ → ℤ → ℤ → ℕ → Exec S ℤ
  add_follow_lua key_following key_follower score following_id follower_id ttl = do
    first ← add_if_held key_following score following_id ttl
    second ← add_if_held key_follower score follower_id ttl
    pure (first +ℤ second)

  abbrev lifetime : Exec S ℕ
  lifetime = get_random_expiration rand (pos (24 * hour)) (pos (1 * hour))

  -- `int(ttl.Seconds())`, in nanoseconds again.
  abbrev whole_seconds : ℕ → ℕ
  whole_seconds ttl = ttl / 1_000_000_000 * 1_000_000_000

  -- Add
  unfoldable pub add : ℤ → ℤ → ℤ → Exec S Unit
  unfolding add_follow_lua
  add follower_id following_id score = do
    ttl ← lifetime
    add_follow_lua (following follower_id) (follower following_id) score following_id follower_id
        (whole_seconds ttl)
    pure tt

  abbrev fill_commands : Key → List CacheMember → ℕ → List Command
  fill_commands key sets expiration = z_add key (members_of sets) ∷ expire key expiration ∷ []

  -- AddFollowings
  unfoldable pub add_followings : ℤ → List CacheMember → Exec S Unit
  add_followings follower_id [] = pure tt
  add_followings follower_id (m ∷ sets) = do
    expiration ← lifetime
    exec_all client (fill_commands (following follower_id) (m ∷ sets) expiration)

  -- AddFollowers
  unfoldable pub add_followers : ℤ → List CacheMember → Exec S Unit
  add_followers following_id sets = do
    expiration ← lifetime
    exec_all client (fill_commands (follower following_id) sets expiration)

  -- Exists
  unfoldable pub list_exists : ℤ → Bool → Exec S Bool
  list_exists user_id check_following = do
    n ←
        ask client as_number
          (exists ((if check_following then following user_id else follower user_id) ∷ []))
    pure (not (is_nonpos n))

  abbrev pub relation_commands : ℤ → String → List Command
  relation_commands user_id target =
      exists (following user_id ∷ [])
      ∷ exists (follower user_id ∷ [])
      ∷ z_score (following user_id) target
      ∷ z_score (follower user_id) target
      ∷ []

  abbrev relation_of : Reply → Reply → Reply → Reply → Exec S (Bool × Bool)
  relation_of ex_following ex_follower f t =
      if int_eq (number_of ex_following) (pos 0) || int_eq (number_of ex_follower) (pos 0)
      then raise redis_nil
      else pure (succeeded f, succeeded t)

  -- The error of `Exec` is dropped.
  abbrev pub related : Option Error × List Reply → Exec S (Bool × Bool)
  related (e, replies) =
      relation_of (first_reply replies) (first_reply (rest_replies replies))
        (first_reply (rest_replies (rest_replies replies)))
        (first_reply (rest_replies (rest_replies (rest_replies replies))))

  -- GetRelation
  unfoldable pub get_relation : ℤ → ℤ → Exec S (Bool × Bool)
  get_relation user_id target_id = do
    executed ← piped client (relation_commands user_id (c.format target_id))
    related executed

  -- findIDsFromZSet
  unfoldable pub find_ids_from_z_set : Key → Exec S (List ℤ)
  find_ids_from_z_set key = do
    strs ← ask client as_texts (z_range_rev key (pos 0) (negsuc 0))
    pure (parsed c strs)

  -- FindFollowingIDs
  unfoldable pub find_following_ids : ℤ → Exec S (List ℤ)
  unfolding find_ids_from_z_set
  find_following_ids user_id = find_ids_from_z_set (following user_id)

  -- FindFollowerIDs
  unfoldable pub find_follower_ids : ℤ → Exec S (List ℤ)
  unfolding find_ids_from_z_set
  find_follower_ids user_id = find_ids_from_z_set (follower user_id)

  -- InvalidatePair
  unfoldable pub invalidate_pair : ℤ → ℤ → Exec S Unit
  invalidate_pair follower_id following_id =
      exec_all client (del (following follower_id) ∷ del (follower following_id) ∷ [])

  abbrev pub self_commands : ℤ → Bool → Bool → List Command
  self_commands user_id is_following is_follower =
      (if is_following then del (following user_id) ∷ [] else [])
      ++ (if is_follower then del (follower user_id) ∷ [] else [])

  -- InvalidateSelf
  unfoldable pub invalidate_self : ℤ → Bool → Bool → Exec S Unit
  invalidate_self user_id is_following is_follower =
      exec_all client (self_commands user_id is_following is_follower)

  -- The cache as the interface of the repository.
  unfoldable pub as_cache : FollowCache S
  as_cache = record {
    add = add;
    add_followings = add_followings;
    add_followers = add_followers;
    get_relation = get_relation;
    find_following_ids = find_following_ids;
    find_follower_ids = find_follower_ids;
    invalidate_pair = invalidate_pair;
  }
