-- ===== src/Repository/Tweet/Calm.antt =====
-- internal/repository/tweet_repository.go ends without a panic over a store, a cache, flights and a
-- pool that do.
use aita.Common.{ℤ, String, Option, none, some}
use aita.Errcode.{internal, tweet_not_found}
use aita.Exec.{Exec, ◌>>=◌, pure, Attempt, returned, failed}
use aita.Exec.Calm.{Any, IsSome, Calm, Calm-pure, Calm-fail, Calm-bind, Calm-attempt, Calm-any}
use aita.Models.{Tweet}
use aita.Dto.Tweet.{TweetRecord, to_model}
use aita.Pkg.Pool.{Pool}
use aita.Pkg.Singleflight.{Group, Waits}
use aita.Pkg.Calm.{Calm-ignore, Calm-on_error, IsCalmPool, IsCalmGroup, Calm-get_data}
use aita.Repository.Tweet.{
  TweetStore, TweetCache, Task, Flown, tweet_key, create, saved_tweet, update, delete, get,
  fetched_tweet, on_miss, hit_or_miss, as_interface,
}

pub record IsCalmTweetStore {S : Type 0} (store : TweetStore S) : Type 0 where
  pub creates : (t : Tweet) → Calm IsSome (store.create_tweet t)
  pub finds : (id : ℤ) → Calm IsSome (store.get_tweet_by_tweet_id id)
  pub updates : (content : String) (id : ℤ) → Calm IsSome (store.update_content content id)
  pub deletes : (id : ℤ) → Calm Any (store.delete_tweet id)

pub record IsCalmTweetCache {S : Type 0} (cache : TweetCache S) : Type 0 where
  pub finds : (id : ℤ) → Calm Any (cache.get_tweet id)
  pub drops : (id : ℤ) → Calm Any (cache.invalidate id)

module _ {S : Type 0} (store : TweetStore S) (cache : TweetCache S) (pool : Pool S Task)
    (sf : Group S Flown) (calm_store : IsCalmTweetStore store) (calm_cache : IsCalmTweetCache cache)
    (calm_pool : IsCalmPool pool) (calm_sf : IsCalmGroup sf) where
  create-Calm : (r : Option TweetRecord) → Calm Any (create store cache pool sf r)
  unfolding create
  create-Calm r = Calm-bind _ _ (Calm-any _ (calm_store.creates (to_model r))) by_row
    where
      by_row : (o : Option Tweet) → Calm Any (saved_tweet store cache pool sf o)
      by_row none = Calm-fail internal
      by_row (some t) =
          Calm-bind _ _
            (Calm-on_error _ _ (calm_pool.submits _) (Calm-ignore _ (calm_cache.drops t.id)))
            (λ done. Calm-pure _ tt)

  update-Calm : (content : String) (id : ℤ) → Calm Any (update store cache pool sf content id)
  unfolding update
  update-Calm content id = Calm-bind _ _ (Calm-any _ (calm_store.updates content id)) (λ t.
      Calm-bind _ _ (Calm-ignore _ (calm_cache.drops id))
        (λ dropped. Calm-bind _ _ (Calm-ignore _ (calm_pool.submits _)) (λ done. Calm-pure _ tt)))

  pub delete-Calm : (id : ℤ) → Calm Any (delete store cache pool sf id)
  unfolding delete
  delete-Calm id =
      Calm-bind _ _ (calm_store.deletes id) (λ done. Calm-ignore _ (calm_cache.drops id))

  get-Calm : (w : Waits) (id : ℤ) → Calm Any (get store cache pool sf w id)
  unfolding get
  get-Calm w id = Calm-bind _ _ (Calm-any _ (Calm-attempt _ (calm_cache.finds id))) by_cache
    where
      by_row : (o : Option Tweet) → Calm Any (fetched_tweet store cache pool sf o)
      by_row none = Calm-fail tweet_not_found
      by_row (some t) = Calm-bind _ _ (Calm-ignore _ (calm_pool.submits _)) (λ done. Calm-pure _ tt)

      missed : Calm Any (on_miss store cache pool sf w id)
      missed =
          Calm-bind _ _
            (Calm-get_data w sf (tweet_key id) _ calm_sf (Calm-any _ (calm_store.finds id))) by_row

      by_cache : (a : Attempt (Option Tweet)) → Calm Any (hit_or_miss store cache pool sf w id a)
      by_cache (returned (some t)) = Calm-pure _ tt
      by_cache (returned none) = missed
      by_cache (failed e) = missed

  -- As the interface of the service, which no nil record leaves.
  some-Calm : (m : Exec S TweetRecord) → Calm Any m → Calm IsSome (do t ← m; pure (some t))
  some-Calm m c = Calm-bind m _ c (λ t. Calm-pure (some t) tt)

  pub creates-Calm :
      (w : Waits) (r : TweetRecord) → Calm IsSome ((as_interface store cache pool sf w).create r)
  unfolding as_interface
  creates-Calm w r = some-Calm (create store cache pool sf (some r)) (create-Calm (some r))

  pub gets-Calm : (w : Waits) (id : ℤ) → Calm IsSome ((as_interface store cache pool sf w).get id)
  unfolding as_interface
  gets-Calm w id = some-Calm (get store cache pool sf w id) (get-Calm w id)

  pub updates-Calm :
      (w : Waits) (content : String) (id : ℤ)
      → Calm IsSome ((as_interface store cache pool sf w).update content id)
  unfolding as_interface
  updates-Calm w content id =
      some-Calm (update store cache pool sf content id) (update-Calm content id)
