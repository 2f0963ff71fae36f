-- ===== src/Service/User.antt =====
-- internal/service/user_service.go
pub mod Calm
pub mod Laws
use aita.Common.{
  ℤ, pos, is_nonpos, String, str_eq, Bool, true, false, ◌||◌, Option, none, some, List, [], ◌∷◌,
  if◌then◌else◌,
}
use aita.Errcode.{
  Error, wrapped, sentinel, required_field_missing, invalid_credentials, invalid_user_id,
  is_user_not_found,
}
use aita.Exec.{
  Result, ok, err, panic, Exec, ◌>>=◌, ◌>>◌, pure, fail, raise, wrap_err, Attempt, returned, failed,
  attempt,
}
use aita.Dto.User.{UserRecord, UserSlimRecord}
use aita.Service.Tweet.{deref}

pub record UserRepository (S : Type 0) : Type 0 where
  pub create : UserRecord → Exec S (Option UserRecord)
  pub get_by_email : String → Exec S (Option UserRecord)
  pub get_full_by_id : ℤ → Exec S (Option UserRecord)
  pub increase_follower : ℤ → ℤ → Exec S Unit
  pub increase_following : ℤ → ℤ → Exec S Unit
  pub exists : ℤ → Exec S Bool
  pub get_base_infos : List ℤ → Exec S (List UserSlimRecord)

-- `compare` errs on a password that is not the hashed one.
pub record PasswordHasher (S : Type 0) : Type 0 where
  pub generate : String → Exec S String
  pub compare : String → String → Exec S Unit

-- The record that `Register` hands to the repository.
abbrev pub new_user : String → String → String → UserRecord
new_user username email hash = record {
  id = pos 0;
  username = username;
  email = email;
  password_hash = hash;
  created_at = 0;
  follower_count = pos 0;
  following_count = pos 0;
}

module _ {S : Type 0} (repo : UserRepository S) (hasher : PasswordHasher S) where
  -- Register
  unfoldable pub register : String → String → String → Exec S (Option UserRecord)
  register username email password =
      if str_eq username "" || str_eq email "" || str_eq password ""
      then fail required_field_missing
      else do
        hash ← wrap_err (hasher.generate password)
        wrap_err (repo.create (new_user username email hash))

  abbrev by_email : Attempt (Option UserRecord) → Exec S (Option UserRecord)
  by_email (returned user) = pure user
  by_email (failed e) = if is_user_not_found e then fail invalid_credentials else raise (wrapped e)

  -- existsByEmail
  unfoldable pub exists_by_email : String → Exec S (Option UserRecord)
  exists_by_email email =
      if str_eq email ""
      then fail required_field_missing
      else do user ← attempt (repo.get_by_email email); by_email user

  abbrev compared : UserRecord → Attempt (Unit {0}) → Exec S (Option UserRecord)
  compared user (returned _) = pure (some user)
  compared user (failed e) = fail invalid_credentials

  -- Login
  unfoldable pub login : String → String → Exec S (Option UserRecord)
  login email password =
      if str_eq email "" || str_eq password "" then fail required_field_missing else do
        found ← exists_by_email email
        user ← deref found
        verdict ← attempt (hasher.compare user.password_hash password)
        compared user verdict

  -- ToMyAccount
  unfoldable pub to_my_account : ℤ → Exec S (Option UserRecord)
  to_my_account user_id =
      if is_nonpos user_id then fail invalid_user_id else wrap_err (repo.get_full_by_id user_id)

  -- UpdateFollowerCount
  unfoldable pub update_follower_count : ℤ → ℤ → Exec S Unit
  update_follower_count user_id delta =
      if is_nonpos user_id
      then fail invalid_user_id
      else wrap_err (repo.increase_follower user_id delta)

  -- UpdateFollowingCount
  unfoldable pub update_following_count : ℤ → ℤ → Exec S Unit
  update_following_count user_id delta =
      if is_nonpos user_id
      then fail invalid_user_id
      else wrap_err (repo.increase_following user_id delta)

  -- Exists
  unfoldable pub exists : ℤ → Exec S Bool
  exists user_id =
      if is_nonpos user_id then fail invalid_user_id else wrap_err (repo.exists user_id)

  -- GetInfoLists
  unfoldable pub get_info_lists : List ℤ → Exec S (List UserSlimRecord)
  get_info_lists [] = pure []
  get_info_lists (id ∷ ids) = wrap_err (repo.get_base_infos (id ∷ ids))
