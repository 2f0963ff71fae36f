-- ===== src/Service/Follow.antt =====
-- internal/service/follow_service.go. A context is that of internal/db/base.go.
pub mod Calm
pub mod Laws
pub mod Atomic
pub mod Wiring
use aita.Common.{
  ℤ, pos, negsuc, is_nonpos, int_eq, String, Bool, true, false, not, ◌||◌, Option, none, some, List,
  [], ◌∷◌, if◌then◌else◌,
}
use aita.Errcode.{Error, wrapped, sentinel, invalid_user_id, cannot_follow_self, user_not_found}
use aita.Exec.{Exec, ◌>>=◌, ◌>>◌, pure, fail, crash, wrap_err, Attempt, returned, failed, attempt}
use aita.Dto.Follow.{FollowRecord, RelationRecord}
use aita.Dto.User.{UserSlimRecord}
use aita.Db.Transactor.{Ctx, base}

pub record FollowRepository (S : Type 0) : Type 0 where
  pub create : Ctx → ℤ → ℤ → Exec S (Option FollowRecord)
  pub check_relation : ℤ → ℤ → Exec S (Option RelationRecord)
  pub get_followings : ℤ → Exec S (List ℤ)
  pub get_followers : ℤ → Exec S (List ℤ)
  pub remove_follow : Ctx → ℤ → ℤ → Exec S Unit

pub record CountManager (S : Type 0) : Type 0 where
  pub update_following_count : Ctx → ℤ → ℤ → Exec S Unit
  pub update_follower_count : Ctx → ℤ → ℤ → Exec S Unit
  pub exists : ℤ → Exec S Bool
  pub get_info_lists : List ℤ → Exec S (List UserSlimRecord)

-- TransactionManager, at the types of the two closures of the file: each returns what it leaves in
-- the variables that it captures.
pub record TransactionManager (S : Type 0) : Type 0 where
  pub exec_follow : (Ctx → Exec S (Option FollowRecord)) → Exec S (Option FollowRecord)
  pub exec_unfollow : (Ctx → Exec S Unit) → Exec S Unit

-- followService, whose transaction manager may be the nil interface.
pub record FollowService (S : Type 0) : Type 0 where
  pub follow_repository : FollowRepository S
  pub count_manager : CountManager S
  pub transaction_manager : Option (TransactionManager S)

-- NewFollowService
unfoldable pub new_follow_service :
    {S : Type 0} → FollowRepository S → CountManager S → FollowService S
new_follow_service fr cm = record {
  follow_repository = fr;
  count_manager = cm;
  transaction_manager = none;
}

abbrev pub one : ℤ
one = pos 1

abbrev pub minus_one : ℤ
minus_one = negsuc 0

-- `err != nil || !exists`
abbrev is_missing : Attempt Bool → Bool
is_missing (returned found) = not found
is_missing (failed e) = true

abbrev exec_follow :
    {S : Type 0}
    → Option (TransactionManager S)
    → (Ctx → Exec S (Option FollowRecord))
    → Exec S (Option FollowRecord)
exec_follow none fn = crash
exec_follow (some tm) fn = tm.exec_follow fn

abbrev exec_unfollow :
    {S : Type 0} → Option (TransactionManager S) → (Ctx → Exec S Unit) → Exec S Unit
exec_unfollow none fn = crash
exec_unfollow (some tm) fn = tm.exec_unfollow fn

module _ {S : Type 0} (svc : FollowService S) where
  -- The closure of `Follow`.
  unfoldable pub follow_in : ℤ → ℤ → Ctx → Exec S (Option FollowRecord)
  follow_in user_id target_id ctx = do
    made ← wrap_err (svc.follow_repository.create ctx user_id target_id)
    wrap_err (svc.count_manager.update_follower_count ctx target_id one)
    wrap_err (svc.count_manager.update_following_count ctx user_id one)
    pure made

  -- Follow
  unfoldable pub follow : ℤ → ℤ → Exec S (Option FollowRecord)
  follow user_id target_id =
      if is_nonpos user_id || is_nonpos target_id
      then fail invalid_user_id
      else if int_eq user_id target_id
      then fail cannot_follow_self
      else do
        found ← attempt (svc.count_manager.exists target_id)
        if is_missing found
            then fail user_not_found
            else exec_follow svc.transaction_manager (follow_in user_id target_id)

  -- The closure of `UnFollow`.
  unfoldable pub unfollow_in : ℤ → ℤ → Ctx → Exec S Unit
  unfollow_in user_id target_id ctx = do
    wrap_err (svc.follow_repository.remove_follow ctx user_id target_id)
    wrap_err (svc.count_manager.update_follower_count ctx target_id minus_one)
    wrap_err (svc.count_manager.update_following_count ctx user_id minus_one)

  -- UnFollow
  unfoldable pub unfollow : ℤ → ℤ → Exec S Unit
  unfollow user_id target_id =
      if is_nonpos user_id || is_nonpos target_id
      then fail invalid_user_id
      else if int_eq user_id target_id
      then fail cannot_follow_self
      else do
        found ← attempt (svc.count_manager.exists target_id)
        if is_missing found
            then fail user_not_found
            else exec_unfollow svc.transaction_manager (unfollow_in user_id target_id)

  -- GetFollowerIDs
  unfoldable pub get_follower_ids : ℤ → Exec S (List ℤ)
  get_follower_ids user_id =
      if is_nonpos user_id
      then fail invalid_user_id
      else wrap_err (svc.follow_repository.get_followers user_id)

  abbrev infos : List ℤ → Exec S (List UserSlimRecord)
  infos [] = pure []
  infos (id ∷ ids) = svc.count_manager.get_info_lists (id ∷ ids)

  -- GetFollowers
  unfoldable pub get_followers : ℤ → Exec S (List UserSlimRecord)
  get_followers user_id = do ids ← get_follower_ids user_id; infos ids

  -- GetFollowingIDs
  unfoldable pub get_following_ids : ℤ → Exec S (List ℤ)
  get_following_ids user_id =
      if is_nonpos user_id
      then fail invalid_user_id
      else wrap_err (svc.follow_repository.get_followings user_id)

  -- GetFollowings
  unfoldable pub get_followings : ℤ → Exec S (List UserSlimRecord)
  get_followings user_id = do ids ← get_following_ids user_id; infos ids

  -- GetRelation
  unfoldable pub get_relation : ℤ → ℤ → Exec S (Option RelationRecord)
  get_relation user_id target_id =
      if is_nonpos user_id || is_nonpos target_id
      then fail invalid_user_id
      else if int_eq user_id target_id
      then fail cannot_follow_self
      else wrap_err (svc.follow_repository.check_relation user_id target_id)
