-- ===== src/Repository/Follow/Relation.antt =====
-- Who follows whom, as `CheckRelation` of internal/repository/follow_repository.go answers it.
use aita.Common.{ℤ, int_eq_ne, ◌≡◌, ◌≢◌, Bool, ◌&&◌, Option, some, arith}
use aita.Errcode.{Error}
use aita.Exec.{ok, err, Exec}
use aita.Models.{Time, RelationShip}
use aita.Dto.Follow.{RelationRecord, new_relation_record}
use aita.Pkg.Pool.{Pool}
use aita.Pkg.Singleflight.{Group, calm}
use aita.Repository.Follow.{
  FollowStore, FollowCache, Task, Flown, low, high, ordered_key, check_relation,
}

low_comm : (a b : ℤ) → low a b ≡ low b a
unfolding low
low_comm a b = ground arith

high_comm : (a b : ℤ) → high a b ≡ high b a
unfolding high
high_comm a b = ground arith

-- The record of who follows whom in `follows`, from `a`'s side.
abbrev pub relation_of : (ℤ → ℤ → Bool) → ℤ → ℤ → RelationRecord
relation_of follows a b = record {
  following = follows a b;
  followed_by = follows b a;
  is_mutual = follows a b && follows b a;
}

abbrev pub row_of : (ℤ → ℤ → Bool) → ℤ → ℤ → RelationShip
row_of follows a b = record { following = follows a b; followed_by = follows b a }

module _ {S : Type 0} (unix : Time → ℤ) (store : FollowStore S) (cache : FollowCache S)
    (pool : Pool S Task) (sf : Group S Flown) (follows : ℤ → ℤ → Bool) where
  -- Of two users, where the cache does not know and the flight is the caller's own, the answer of
  -- `CheckRelation` is the table's, from the caller's side, and mutual where both follow.
  pub check_relation_lem :
      (a b : ℤ) (s s' s'' : S) (e : Error)
      → a ≢ b
      → cache.get_relation a b s ≡ (err e, s')
      → sf.do_chan (ordered_key a b) (store.get_relationship a b) s' ≡ store.get_relationship a b s'
      → store.get_relationship a b s' ≡ (ok (some (row_of follows a b)), s'')
      → check_relation unix store cache pool sf calm a b s
        ≡ (ok (some (relation_of follows a b)), s'')
  unfolding check_relation new_relation_record
  check_relation_lem a b s s' s'' e apart missed alone stored =
      rw (int_eq_ne a b apart, missed) (rw alone (rw stored))

  -- The two users of a pair share the key of a flight, so a caller that joins the other user's
  -- flight is told the other user's view: whom it follows and who follows it are exchanged.
  pub check_relation_swapped :
      (a b : ℤ) (s s' : S) (e : Error)
      → a ≢ b
      → cache.get_relation a b s ≡ (err e, s')
      → ((fn : Exec S (Option RelationShip))
          → sf.do_chan (ordered_key b a) fn s' ≡ (ok (some (row_of follows b a)), s'))
      → check_relation unix store cache pool sf calm a b s
        ≡ (ok (some (relation_of follows b a)), s')
  unfolding check_relation new_relation_record
  check_relation_swapped a b s s' e apart missed joined =
      rw (int_eq_ne a b apart, missed, low_comm a b, high_comm a b)
        (rw (joined (store.get_relationship a b)))
