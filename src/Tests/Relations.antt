-- ===== src/Tests/Relations.antt =====
-- Two users, of whom the first follows the second.
use aita.Common.{ℤ, pos, int_eq, ◌≡◌, ◌≢◌, refl, Bool, ◌&&◌, none, some, []}
use aita.Errcode.{foreign}
use aita.Exec.{ok, err, Exec}
use aita.Pkg.Pool.{Pool}
use aita.Pkg.Singleflight.{Group, calm}
use aita.Repository.Follow.{
  FollowStore, FollowCache, Task, Key, relation_key, followings_key, followers_key, Flown, low,
  high, check_relation,
}
use aita.Repository.Follow.Relation.{relation_of, row_of, check_relation_swapped}

abbrev follows : ℤ → ℤ → Bool
follows a b = int_eq a (pos 1) && int_eq b (pos 2)

abbrev store : FollowStore Unit
store = record {
  create = λ ctx a b s. (ok none, s);
  get_followings = λ a s. (ok [], s);
  get_followers = λ a s. (ok [], s);
  get_relationship = λ a b s. (ok (some (row_of follows a b)), s);
  delete = λ ctx a b s. (ok tt, s);
}

-- A cache that knows nothing.
abbrev cache : FollowCache Unit
cache = record {
  add = λ a b score s. (ok tt, s);
  add_followings = λ a members s. (ok tt, s);
  add_followers = λ a members s. (ok tt, s);
  get_relation = λ a b s. (err (foreign 2), s);
  find_following_ids = λ a s. (ok [], s);
  find_follower_ids = λ a s. (ok [], s);
  invalidate_pair = λ a b s. (ok tt, s);
}

abbrev pool : Pool Unit Task
pool = record { submit = λ t s. (ok tt, s) }

abbrev flights : Group Unit Flown
flights = record { do_chan = λ key fn. fn }

-- The second user's call is on its way under the pair's key.
abbrev joined : (key : Key) → Exec Unit (Flown key) → Exec Unit (Flown key)
joined (relation_key a b) fn s = (ok (some (row_of follows (pos 2) (pos 1))), s)
joined (followings_key a) fn s = fn s
joined (followers_key a) fn s = fn s

abbrev shared : Group Unit Flown
shared = record { do_chan = joined }

apart : pos 1 ≢ pos 2
apart e = cc

check_relation_swapped_example :
    check_relation (λ t. pos t) store cache pool shared calm (pos 1) (pos 2) tt
    ≡ (ok (some (relation_of follows (pos 2) (pos 1))), tt)
check_relation_swapped_example =
    check_relation_swapped (λ t. pos t) store cache pool shared follows (pos 1) (pos 2) tt tt
      (foreign 2) apart refl (λ fn. unfold low high in refl)
