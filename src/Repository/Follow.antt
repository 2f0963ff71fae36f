-- ===== src/Repository/Follow.antt =====
-- internal/repository/follow_repository.go
pub mod Calm
pub mod Relation
use aita.Common.{
  ℕ, ℤ, int_eq, leb_ℤ, String, Bool, true, false, not, ◌&&◌, Option, none, some, List, [], ◌∷◌, map,
  if◌then◌else◌,
}
use aita.Errcode.{Error, cannot_follow_self, internal}
use aita.Exec.{Exec, ◌>>=◌, ◌>>◌, pure, fail, raise, Attempt, returned, failed, attempt}
use aita.Models.{Time, Follow, CacheMember, RelationShip}
use aita.Dto.Follow.{FollowRecord, RelationRecord, new_follow_record, new_relation_record}
use aita.Db.Transactor.{Ctx}
use aita.Pkg.Pool.{Pool, ignore, on_error}
use aita.Pkg.Singleflight.{Group, Waits, get_data_with_sf}
use aita.Service.Follow.{FollowRepository}

pub record FollowStore (S : Type 0) : Type 0 where
  pub create : Ctx → ℤ → ℤ → Exec S (Option Follow)
  pub get_followings : ℤ → Exec S (List Follow)
  pub get_followers : ℤ → Exec S (List Follow)
  pub get_relationship : ℤ → ℤ → Exec S (Option RelationShip)
  pub delete : Ctx → ℤ → ℤ → Exec S Unit

pub record FollowCache (S : Type 0) : Type 0 where
  pub add : ℤ → ℤ → ℤ → Exec S Unit
  pub add_followings : ℤ → List CacheMember → Exec S Unit
  pub add_followers : ℤ → List CacheMember → Exec S Unit
  pub get_relation : ℤ → ℤ → Exec S (Bool × Bool)
  pub find_following_ids : ℤ → Exec S (List ℤ)
  pub find_follower_ids : ℤ → Exec S (List ℤ)
  pub invalidate_pair : ℤ → ℤ → Exec S Unit

-- The closures that the repository submits to the pool.
pub data Task : Type 0 where
  add_pair : ℤ → ℤ → ℤ → Task
  fill_followings : ℤ → List CacheMember → Task
  fill_followers : ℤ → List CacheMember → Task

-- The keys of its flights, each a format with its arguments.
pub data Key : Type 0 where
  relation_key : ℤ → ℤ → Key
  followings_key : ℤ → Key
  followers_key : ℤ → Key

abbrev pub Flown : Key → Type 0
Flown (relation_key low high) = Option RelationShip
Flown (followings_key user) = List Follow
Flown (followers_key user) = List Follow

-- `low, high`, put in order
unfoldable pub low : ℤ → ℤ → ℤ
low a b = if leb_ℤ a b then a else b

unfoldable pub high : ℤ → ℤ → ℤ
high a b = if leb_ℤ a b then b else a

abbrev pub ordered_key : ℤ → ℤ → Key
ordered_key a b = relation_key (low a b) (high a b)

module _ {S : Type 0} (cache : FollowCache S) where
  -- The bodies of the closures.
  unfoldable pub run_task : Task → Exec S Unit
  run_task (add_pair follower following score) =
      on_error (cache.add follower following score)
        (ignore (cache.invalidate_pair follower following))
  run_task (fill_followings user members) = ignore (cache.add_followings user members)
  run_task (fill_followers user members) = ignore (cache.add_followers user members)

-- `unix` is the method of time.Time.
module _ {S : Type 0} (unix : Time → ℤ) (store : FollowStore S) (cache : FollowCache S)
    (pool : Pool S Task) (sf : Group S Flown) where
  -- makeScore
  abbrev make_score : Time → ℤ
  make_score created_at = unix created_at

  abbrev made : ℤ → ℤ → Option Follow → Exec S (Option FollowRecord)
  made follower following none = fail internal
  made follower following (some f) = do
    on_error (pool.submit (add_pair follower following (make_score f.created_at)))
        (ignore (cache.invalidate_pair follower following))
    pure (new_follow_record (some f))

  -- Create
  unfoldable pub create : Ctx → ℤ → ℤ → Exec S (Option FollowRecord)
  create ctx follower following =
      if int_eq follower following
      then fail cannot_follow_self
      else do db_follow ← store.create ctx follower following; made follower following db_follow

  abbrev known : Option RelationShip → Exec S (Option RelationRecord)
  known none = fail internal
  known (some r) = pure (new_relation_record (some r))

  abbrev related : Waits → ℤ → ℤ → Attempt (Bool × Bool) → Exec S (Option RelationRecord)
  related w follower following (returned (is_following, is_followed)) = pure (
      some (record {
        following = is_following;
        followed_by = is_followed;
        is_mutual = is_following && is_followed;
      }))
  related w follower following (failed e) = do
    res ←
        get_data_with_sf w sf (ordered_key follower following)
          (store.get_relationship follower following)
    known res

  -- CheckRelation
  unfoldable pub check_relation : Waits → ℤ → ℤ → Exec S (Option RelationRecord)
  unfolding get_data_with_sf
  check_relation w follower following =
      if int_eq follower following
      then pure (some (record { following = false; followed_by = false; is_mutual = false }))
      else do
        got ← attempt (cache.get_relation follower following)
        related w follower following got

  abbrev following_members : List Follow → List CacheMember
  following_members = map (λ f. record { member = f.following_id; score = make_score f.created_at })

  abbrev follower_members : List Follow → List CacheMember
  follower_members = map (λ f. record { member = f.follower_id; score = make_score f.created_at })

  abbrev load_followings : Waits → ℤ → Exec S (List ℤ)
  load_followings w user = do
    rows ← get_data_with_sf w sf (followings_key user) (store.get_followings user)
    ignore (pool.submit (fill_followings user (following_members rows)))
    pure (map (λ f. f.following_id) rows)

  abbrev followings_or_load : Waits → ℤ → Attempt (List ℤ) → Exec S (List ℤ)
  followings_or_load w user (returned (id ∷ ids)) = pure (id ∷ ids)
  followings_or_load w user (returned []) = load_followings w user
  followings_or_load w user (failed e) = load_followings w user

  -- GetFollowings
  unfoldable pub get_followings : Waits → ℤ → Exec S (List ℤ)
  unfolding get_data_with_sf
  get_followings w user = do
    got ← attempt (cache.find_following_ids user)
    followings_or_load w user got

  abbrev load_followers : Waits → ℤ → Exec S (List ℤ)
  load_followers w user = do
    rows ← get_data_with_sf w sf (followers_key user) (store.get_followers user)
    ignore (pool.submit (fill_followers user (follower_members rows)))
    pure (map (λ f. f.follower_id) rows)

  abbrev followers_or_load : Waits → ℤ → Attempt (List ℤ) → Exec S (List ℤ)
  followers_or_load w user (returned (id ∷ ids)) = pure (id ∷ ids)
  followers_or_load w user (returned []) = load_followers w user
  followers_or_load w user (failed e) = load_followers w user

  -- GetFollowers
  unfoldable pub get_followers : Waits → ℤ → Exec S (List ℤ)
  unfolding get_data_with_sf
  get_followers w user = do
    got ← attempt (cache.find_follower_ids user)
    followers_or_load w user got

  -- RemoveFollow
  unfoldable pub remove_follow : Ctx → ℤ → ℤ → Exec S Unit
  remove_follow ctx follower following =
      if int_eq follower following
      then pure tt
      else do store.delete ctx follower following; ignore (cache.invalidate_pair follower following)

  -- The repository as the interface of the service.
  unfoldable pub as_interface : Waits → FollowRepository S
  as_interface w = record {
    create = create;
    check_relation = check_relation w;
    get_followings = get_followings w;
    get_followers = get_followers w;
    remove_follow = remove_follow;
  }
