-- ===== src/Repository/Follow/Calm.antt =====
-- The reads of internal/repository/follow_repository.go end without a panic over a store, a cache,
-- flights and a pool that do.
use aita.Common.{ℤ, Bool, int_eq, Option, none, some, List, [], ◌∷◌}
use aita.Errcode.{internal}
use aita.Exec.{Attempt, returned, failed}
use aita.Exec.Calm.{Any, Calm, Calm-pure, Calm-fail, Calm-if, Calm-bind, Calm-attempt, Calm-any}
use aita.Models.{Time, RelationShip}
use aita.Pkg.Pool.{Pool}
use aita.Pkg.Singleflight.{Group, Waits}
use aita.Pkg.Calm.{Calm-ignore, IsCalmPool, IsCalmGroup, Calm-get_data}
use aita.Repository.Follow.{
  FollowStore, FollowCache, Task, Flown, followings_key, followers_key, ordered_key, known, related,
  check_relation, load_followings, followings_or_load, get_followings, load_followers,
  followers_or_load, get_followers,
}

pub record IsCalmFollowStore {S : Type 0} (store : FollowStore S) : Type 0 where
  pub followings : (id : ℤ) → Calm Any (store.get_followings id)
  pub followers : (id : ℤ) → Calm Any (store.get_followers id)
  pub relations : (a b : ℤ) → Calm Any (store.get_relationship a b)

pub record IsCalmFollowCache {S : Type 0} (cache : FollowCache S) : Type 0 where
  pub relations : (a b : ℤ) → Calm Any (cache.get_relation a b)
  pub followings : (id : ℤ) → Calm Any (cache.find_following_ids id)
  pub followers : (id : ℤ) → Calm Any (cache.find_follower_ids id)

module _ {S : Type 0} (unix : Time → ℤ) (store : FollowStore S) (cache : FollowCache S)
    (pool : Pool S Task) (sf : Group S Flown) (calm_store : IsCalmFollowStore store)
    (calm_cache : IsCalmFollowCache cache) (calm_pool : IsCalmPool pool)
    (calm_sf : IsCalmGroup sf) where
  pub check_relation-Calm :
      (w : Waits) (a b : ℤ) → Calm Any (check_relation unix store cache pool sf w a b)
  unfolding check_relation
  check_relation-Calm w a b =
      Calm-if (int_eq a b) _ _ (Calm-pure _ tt)
        (Calm-bind _ _ (Calm-any _ (Calm-attempt _ (calm_cache.relations a b))) by_cache)
    where
      by_row : (o : Option RelationShip) → Calm Any (known unix store cache pool sf o)
      by_row none = Calm-fail internal
      by_row (some r) = Calm-pure _ tt

      by_cache : (r : Attempt (Bool × Bool)) → Calm Any (related unix store cache pool sf w a b r)
      by_cache (returned (f, t)) = Calm-pure _ tt
      by_cache (failed e) =
          Calm-bind _ _ (Calm-get_data w sf (ordered_key a b) _ calm_sf (calm_store.relations a b))
            by_row

  pub get_followings-Calm :
      (w : Waits) (id : ℤ) → Calm Any (get_followings unix store cache pool sf w id)
  unfolding get_followings
  get_followings-Calm w id =
      Calm-bind _ _ (Calm-any _ (Calm-attempt _ (calm_cache.followings id))) by_cache
    where
      loaded : Calm Any (load_followings unix store cache pool sf w id)
      loaded =
          Calm-bind _ _
            (Calm-get_data w sf (followings_key id) _ calm_sf (calm_store.followings id))
            (λ rows. Calm-bind _ _ (Calm-ignore _ (calm_pool.submits _)) (λ done. Calm-pure _ tt))

      by_cache :
          (a : Attempt (List ℤ)) → Calm Any (followings_or_load unix store cache pool sf w id a)
      by_cache (returned (i ∷ is)) = Calm-pure _ tt
      by_cache (returned []) = loaded
      by_cache (failed e) = loaded

  pub get_followers-Calm :
      (w : Waits) (id : ℤ) → Calm Any (get_followers unix store cache pool sf w id)
  unfolding get_followers
  get_followers-Calm w id =
      Calm-bind _ _ (Calm-any _ (Calm-attempt _ (calm_cache.followers id))) by_cache
    where
      loaded : Calm Any (load_followers unix store cache pool sf w id)
      loaded =
          Calm-bind _ _ (Calm-get_data w sf (followers_key id) _ calm_sf (calm_store.followers id))
            (λ rows. Calm-bind _ _ (Calm-ignore _ (calm_pool.submits _)) (λ done. Calm-pure _ tt))

      by_cache :
          (a : Attempt (List ℤ)) → Calm Any (followers_or_load unix store cache pool sf w id a)
      by_cache (returned (i ∷ is)) = Calm-pure _ tt
      by_cache (returned []) = loaded
      by_cache (failed e) = loaded
