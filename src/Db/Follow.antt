-- ===== src/Db/Follow.antt =====
-- internal/db/follow_store.go
use aita.Common.{ℤ, str_eq, Option, some, List, if◌then◌else◌}
use aita.Errcode.{
  Error, sentinel, wrapped, foreign, user_not_found, already_following, cannot_follow_self,
}
use aita.Exec.{Result, ok, err, Exec}
use aita.Models.{Follow, RelationShip}
use aita.Db.Driver.{
  PqError, no_rows, pq, other, Reply, rows, failure, Statement, unique_violation, check_violation,
  foreign_key_violation, unique_follow, no_self_follow,
}
use aita.Db.Transactor.{Ctx, base, conn}
use aita.Repository.Follow.{FollowStore}

-- The statements of the file, with their arguments.
pub record FollowTable (S : Type 0) : Type 0 where
  pub insert : ℤ → ℤ → Statement S Follow
  pub select_followings : ℤ → Statement S (List Follow)
  pub select_followers : ℤ → Statement S (List Follow)
  pub select_relation : ℤ → ℤ → Statement S RelationShip
  pub delete_pair : ℤ → ℤ → Statement S Unit

-- The other errors are wrapped by a text: no sentinel is in them.
abbrev driver_failure : Error
driver_failure = wrapped (foreign 9)

abbrev refused : PqError → Error
refused e =
    if str_eq e.code unique_violation
    then (if str_eq e.constraint unique_follow then sentinel already_following else driver_failure)
    else if str_eq e.code check_violation
    then (if str_eq e.constraint no_self_follow
        then sentinel cannot_follow_self
        else driver_failure)
    else if str_eq e.code foreign_key_violation
    then sentinel user_not_found
    else driver_failure

abbrev pub inserted : Reply Follow → Result (Option Follow)
inserted (rows f) = ok (some f)
inserted (failure no_rows) = err driver_failure
inserted (failure other) = err driver_failure
inserted (failure (pq e)) = err (refused e)

abbrev pub listed : {A : Type 0} → Reply A → Result A
listed (rows a) = ok a
listed (failure e) = err driver_failure

abbrev pub related : Reply RelationShip → Result (Option RelationShip)
related (rows r) = ok (some r)
related (failure e) = err driver_failure

-- The statements as the database runs them, and as the open transaction does.
module _ {S : Type 0} (db tx : FollowTable S) where
  -- Create
  unfoldable pub create : Ctx → ℤ → ℤ → Exec S (Option Follow)
  unfolding conn
  create ctx follower_id following_id s =
      let (r, s') = (conn ctx db tx).insert follower_id following_id s in (inserted r, s')

  -- GetFollowings
  unfoldable pub get_followings : Ctx → ℤ → Exec S (List Follow)
  unfolding conn
  get_followings ctx follower_id s =
      let (r, s') = (conn ctx db tx).select_followings follower_id s in (listed r, s')

  -- GetFollowers, on the database whatever the context.
  unfoldable pub get_followers : Ctx → ℤ → Exec S (List Follow)
  get_followers ctx following_id s =
      let (r, s') = db.select_followers following_id s in (listed r, s')

  -- GetRelationship, on the database whatever the context.
  unfoldable pub get_relationship : Ctx → ℤ → ℤ → Exec S (Option RelationShip)
  get_relationship ctx user_a user_b s =
      let (r, s') = db.select_relation user_a user_b s in (related r, s')

  -- Delete, on the database whatever the context.
  unfoldable pub delete : Ctx → ℤ → ℤ → Exec S Unit
  delete ctx follower_id following_id s =
      let (r, s') = db.delete_pair follower_id following_id s in (listed r, s')

  -- The store as the interface of the repository.
  unfoldable pub as_store : FollowStore S
  as_store = record {
    create = create;
    get_followings = get_followings base;
    get_followers = get_followers base;
    get_relationship = get_relationship base;
    delete = delete;
  }
