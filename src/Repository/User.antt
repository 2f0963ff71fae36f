-- ===== src/Repository/User.antt =====
-- internal/repository/user_repository.go. The methods that a transaction calls take its context;
-- the others are called with a context without one.
pub mod Calm
pub mod Infos
use aita.Common.{
  ℤ, String, Bool, true, false, Option, none, some, List, [], ◌∷◌, map, if◌then◌else◌,
}
use aita.Errcode.{Error, internal, user_not_found, is_user_not_found}
use aita.Exec.{Exec, ◌>>=◌, ◌>>◌, pure, fail, raise, Attempt, returned, failed, attempt}
use aita.Models.{User, UserInfo, to_cache_info}
use aita.Dto.User.{
  UserRecord, UserPageRecord, UserSlimRecord, to_user_model, new_user_record, new_user_page_record,
}
use aita.Db.Transactor.{Ctx}
use aita.Pkg.Pool.{Pool, ignore, on_error}
use aita.Pkg.Singleflight.{Group, Waits, get_data_with_sf}
use aita.Repository.Batch.{empty_map, missed, insert_all, collect}
use aita.Service.User.{UserRepository}

pub record UserStore (S : Type 0) : Type 0 where
  pub create : Option User → Exec S (Option User)
  pub get_by_email : String → Exec S (Option User)
  pub get_full_by_id : ℤ → Exec S (Option User)
  pub increase_follower_count : Ctx → ℤ → ℤ → Exec S Unit
  pub increase_following_count : Ctx → ℤ → ℤ → Exec S Unit
  pub get_names_by_ids : List ℤ → Exec S (List UserInfo)

-- `map[int64]*models.UserInfo`
abbrev pub InfoMap : Type 0
InfoMap = ℤ → Option UserInfo

pub record UserCache (S : Type 0) : Type 0 where
  pub add : Option UserInfo → ℤ → ℤ → Exec S Unit
  pub invalidate : ℤ → Exec S Unit
  pub get : ℤ → Exec S (Option UserInfo × ℤ × ℤ)
  pub exists : ℤ → Exec S Bool
  pub get_lists : List ℤ → Exec S (Option InfoMap)
  pub add_lists : List (Option UserInfo) → Exec S Unit

-- The closures that the repository submits to the pool.
pub data Task : Type 0 where
  backfill : User → Task
  multi_backfill : List UserInfo → Task

-- The keys of its flights, each a format with its arguments.
pub data Key : Type 0 where
  email_key : String → Key
  users_key : ℤ → Key
  prof_key : ℤ → Key
  exists_key : ℤ → Key

abbrev pub Flown : Key → Type 0
Flown (email_key email) = Option User
Flown (users_key id) = Option User
Flown (prof_key id) = Option User
Flown (exists_key id) = Bool

-- The map and the dropped error of `GetLists`, which returns an empty map or none beside an error.
abbrev pub map_of : Attempt (Option InfoMap) → InfoMap
map_of (returned (some m)) = m
map_of (returned none) = empty_map
map_of (failed e) = empty_map

abbrev pub id_of : UserInfo → ℤ
id_of i = i.id

abbrev pub slim_of : UserInfo → UserSlimRecord
slim_of i = record { id = i.id; username = i.username }

module _ {S : Type 0} (cache : UserCache S) where
  -- The bodies of the closures.
  unfoldable pub run_task : Task → Exec S Unit
  run_task (backfill user) =
      on_error (cache.add (some (to_cache_info user)) user.follower_count user.following_count)
        (cache.invalidate user.id)
  run_task (multi_backfill infos) = ignore (cache.add_lists (map some infos))

module _ {S : Type 0} (store : UserStore S) (cache : UserCache S) (pool : Pool S Task)
    (sf : Group S Flown) where
  abbrev pub created : Option User → Exec S (Option UserRecord)
  created none = fail internal
  created (some user) = pure (new_user_record (some user))

  -- Create
  unfoldable pub create : UserRecord → Exec S (Option UserRecord)
  create rec = do db_user ← store.create (to_user_model (some rec)); created db_user

  abbrev pub known : Option User → Exec S (Option UserRecord)
  known none = fail user_not_found
  known (some user) = pure (new_user_record (some user))

  -- GetByEmail
  unfoldable pub get_by_email : Waits → String → Exec S (Option UserRecord)
  unfolding get_data_with_sf
  get_by_email w email = do
    res ← get_data_with_sf w sf (email_key email) (store.get_by_email email)
    known res

  -- GetFullByID
  unfoldable pub get_full_by_id : Waits → ℤ → Exec S (Option UserRecord)
  unfolding get_data_with_sf
  get_full_by_id w user_id = do
    user ← get_data_with_sf w sf (users_key user_id) (store.get_full_by_id user_id)
    known user

  abbrev page_of : User → UserPageRecord
  page_of user = record {
    id = user.id;
    username = user.username;
    follower_count = user.follower_count;
    following_count = user.following_count;
  }

  abbrev found_prof : Option User → Exec S (Option UserPageRecord)
  found_prof none = fail user_not_found
  found_prof (some user) = do
    on_error (pool.submit (backfill user)) (cache.invalidate user.id)
    pure (some (page_of user))

  abbrev load_prof : Waits → ℤ → Exec S (Option UserPageRecord)
  load_prof w user_id = do
    user ← get_data_with_sf w sf (prof_key user_id) (store.get_full_by_id user_id)
    found_prof user

  abbrev cached_prof :
      Waits → ℤ → Attempt (Option UserInfo × ℤ × ℤ) → Exec S (Option UserPageRecord)
  cached_prof w user_id (returned (some info, frc, fgc)) =
      pure (new_user_page_record (some info) frc fgc)
  cached_prof w user_id (returned (none, frc, fgc)) = load_prof w user_id
  cached_prof w user_id (failed e) = load_prof w user_id

  -- GetProfByID
  unfoldable pub get_prof_by_id : Waits → ℤ → Exec S (Option UserPageRecord)
  unfolding get_data_with_sf
  get_prof_by_id w user_id = do got ← attempt (cache.get user_id); cached_prof w user_id got

  -- IncreaseFollower
  unfoldable pub increase_follower : Ctx → ℤ → ℤ → Exec S Unit
  increase_follower ctx user_id delta = do
    store.increase_follower_count ctx user_id delta
    cache.invalidate user_id

  -- IncreaseFollowing
  unfoldable pub increase_following : Ctx → ℤ → ℤ → Exec S Unit
  increase_following ctx user_id delta = do
    store.increase_following_count ctx user_id delta
    cache.invalidate user_id

  abbrev pub found_row : Attempt (Option User) → Exec S Bool
  found_row (returned user) = pure true
  found_row (failed e) = if is_user_not_found e then pure false else raise e

  abbrev pub exists_in_store : ℤ → Exec S Bool
  exists_in_store id = do got ← attempt (store.get_full_by_id id); found_row got

  abbrev pub cached_exists : Waits → ℤ → Attempt Bool → Exec S Bool
  cached_exists w id (returned true) = pure true
  cached_exists w id _ = get_data_with_sf w sf (exists_key id) (exists_in_store id)

  -- Exists
  unfoldable pub exists : Waits → ℤ → Exec S Bool
  unfolding get_data_with_sf
  exists w id = do found ← attempt (cache.exists id); cached_exists w id found

  -- The part of `GetBaseInfos` that asks the store for what the cache missed.
  abbrev pub fill : InfoMap → List ℤ → Exec S InfoMap
  fill m [] = pure m
  fill m (id ∷ ids) = do
    db_infos ← store.get_names_by_ids (id ∷ ids)
    ignore (pool.submit (multi_backfill db_infos))
    pure (insert_all id_of m db_infos)

  abbrev base_infos_some : List ℤ → Exec S (List UserSlimRecord)
  base_infos_some user_ids = do
    got ← attempt (cache.get_lists user_ids)
    full ← fill (map_of got) (missed (map_of got) user_ids)
    pure (collect slim_of full user_ids)

  -- GetBaseInfos
  unfoldable pub get_base_infos : List ℤ → Exec S (List UserSlimRecord)
  get_base_infos [] = pure []
  get_base_infos (id ∷ ids) = base_infos_some (id ∷ ids)

  -- The repository as the interface of the service, called with a context.
  unfoldable pub as_interface : Waits → Ctx → UserRepository S
  as_interface w ctx = record {
    create = create;
    get_by_email = get_by_email w;
    get_full_by_id = get_full_by_id w;
    increase_follower = increase_follower ctx;
    increase_following = increase_following ctx;
    exists = exists w;
    get_base_infos = get_base_infos;
  }
