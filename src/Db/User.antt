-- ===== src/Db/User.antt =====
-- internal/db/user_store.go
use aita.Common.{
  ℕ, zero, ℤ, String, str_eq, Option, none, some, List, [], ◌∷◌, length, ltb, if◌then◌else◌,
}
use aita.Errcode.{
  Error, sentinel, wrapped, foreign, user_not_found, username_conflict, email_conflict,
  value_too_long,
}
use aita.Exec.{Result, ok, err, panic, Exec}
use aita.Models.{User, UserInfo}
use aita.Db.Driver.{
  PqError, no_rows, pq, other, Reply, rows, failure, Statement, unique_violation,
  string_data_right_truncation, username_key, useremail_key,
}
use aita.Db.Transactor.{Ctx, base, conn}
use aita.Repository.User.{UserStore}

-- The statements of the file, with their arguments; the two updates tell the rows affected.
pub record UserTable (S : Type 0) : Type 0 where
  pub insert : String → String → String → Statement S User
  pub select_by_email : String → Statement S User
  pub select_by_id : ℤ → Statement S User
  pub add_to_follower_count : ℤ → ℤ → Statement S ℕ
  pub add_to_following_count : ℤ → ℤ → Statement S ℕ
  pub select_names : List ℤ → Statement S (List UserInfo)

-- The other errors are wrapped by a text: no sentinel is in them.
abbrev driver_failure : Error
driver_failure = wrapped (foreign 7)

abbrev pub too_many_ids : Error
too_many_ids = foreign 8

abbrev refused : PqError → Error
refused e =
    if str_eq e.code unique_violation
    then (if str_eq e.constraint username_key
        then sentinel username_conflict
        else if str_eq e.constraint useremail_key
        then sentinel email_conflict
        else driver_failure)
    else if str_eq e.code string_data_right_truncation
    then sentinel value_too_long
    else driver_failure

abbrev pub inserted : Reply User → Result (Option User)
inserted (rows u) = ok (some u)
inserted (failure no_rows) = err driver_failure
inserted (failure other) = err driver_failure
inserted (failure (pq e)) = err (refused e)

abbrev pub selected : Reply User → Result (Option User)
selected (rows u) = ok (some u)
selected (failure no_rows) = err (sentinel user_not_found)
selected (failure other) = err driver_failure
selected (failure (pq e)) = err driver_failure

abbrev pub counted : Reply ℕ → Result (Unit {0})
counted (rows zero) = err (sentinel user_not_found)
counted (rows n) = ok tt
counted (failure e) = err driver_failure

abbrev pub listed : Reply (List UserInfo) → Result (List UserInfo)
listed (rows infos) = ok infos
listed (failure e) = err driver_failure

-- The statements as the database runs them, and as the open transaction does.
module _ {S : Type 0} (db tx : UserTable S) where
  abbrev pub table : Ctx → UserTable S
  table ctx = conn ctx db tx

  -- Create
  unfoldable pub create : Ctx → Option User → Exec S (Option User)
  unfolding conn
  create ctx none s = (panic, s)
  create ctx (some user) s =
      let (r, s') = (table ctx).insert user.username user.email user.password_hash s in
      (inserted r, s')

  -- GetByEmail
  unfoldable pub get_by_email : Ctx → String → Exec S (Option User)
  unfolding conn
  get_by_email ctx email s = let (r, s') = (table ctx).select_by_email email s in (selected r, s')

  -- GetFullByID
  unfoldable pub get_full_by_id : Ctx → ℤ → Exec S (Option User)
  unfolding conn
  get_full_by_id ctx user_id s =
      let (r, s') = (table ctx).select_by_id user_id s in (selected r, s')

  -- IncreaseFollowerCount
  unfoldable pub increase_follower_count : Ctx → ℤ → ℤ → Exec S Unit
  unfolding conn
  increase_follower_count ctx user_id delta s =
      let (r, s') = (table ctx).add_to_follower_count delta user_id s in (counted r, s')

  -- IncreaseFollowingCount
  unfoldable pub increase_following_count : Ctx → ℤ → ℤ → Exec S Unit
  unfolding conn
  increase_following_count ctx user_id delta s =
      let (r, s') = (table ctx).add_to_following_count delta user_id s in (counted r, s')

  abbrev pub select_some : Ctx → List ℤ → Exec S (List UserInfo)
  select_some ctx ids s = let (r, s') = (table ctx).select_names ids s in (listed r, s')

  -- GetNamesByIDs
  unfoldable pub get_names_by_ids : Ctx → List ℤ → Exec S (List UserInfo)
  unfolding conn
  get_names_by_ids ctx [] s = (ok [], s)
  get_names_by_ids ctx (id ∷ ids) s =
      if ltb 500 (length (id ∷ ids)) then (err too_many_ids, s) else select_some ctx (id ∷ ids) s

  -- The store as the interface of the repository.
  unfoldable pub as_store : UserStore S
  as_store = record {
    create = create base;
    get_by_email = get_by_email base;
    get_full_by_id = get_full_by_id base;
    increase_follower_count = increase_follower_count;
    increase_following_count = increase_following_count;
    get_names_by_ids = get_names_by_ids base;
  }
