-- ===== src/Cache/Tweet/Sound.antt =====
-- What `MultiGet` answers over internal/cache/tweet_cache.go.
use aita.Common.{◌≤◌, length, ℤ, String, ◌≡◌, ◌≢◌, ap, subst, Option, List}
use aita.Exec.{ok, panic}
use aita.Models.{Tweet}
use aita.Pkg.Json.{Json}
use aita.Pkg.Pool.{Pool}
use aita.Pkg.Redis.{Key, tweet_content, Client, IsAnswering}
use aita.Pkg.Singleflight.{Group}
use aita.Pkg.Utils.{Rand}
use aita.Cache.Batch.Sound.{IsFresh, IsFine, get_many-IsFine}
use aita.Cache.Tweet.{multi_get_tweets, as_cache}
use aita.Repository.Batch.{collect}
use aita.Repository.Batch.Agree.{Answers}
use aita.Repository.Tweet.{TweetStore, TweetMap, Task, Flown, id_of, record_of, multi_get}
use aita.Repository.Tweet.MultiGet.{multi_get_lem}

module _ {S : Type 0} (held : S → Key → Option String) (json : Json Tweet) (truth : TweetMap)
    (client : Client S) (law : IsAnswering held client) (rand : Rand S) where
  -- Through the cache in Redis too, `MultiGet` answers the rows of the table for the IDs that it
  -- was asked for, in their order, and nothing for an ID without a row: if the tweets that Redis
  -- holds are the table's, a pipeline of `GET`s without an error answers them in their order, the
  -- store answers every list of IDs that is no longer, and the pool does not panic.
  pub multi_get_through :
      (store : TweetStore S) (pool : Pool S Task) (sf : Group S Flown) (ids : List ℤ) (s : S)
      → IsFresh held json tweet_content id_of truth s
      → ((js : List ℤ) (s' : S)
          → length js ≤ length ids
          → (rows : List Tweet) × (s'' : S) × (store.get_tweets_by_tweet_ids js s' ≡ (ok rows, s''))
            × Answers id_of truth js rows)
      → ((t : Task) (s' : S) → (pool.submit t s').0 ≢ panic)
      → (multi_get store (as_cache json rand client) pool sf ids s).0
        ≡ ok (collect record_of truth ids)
  unfolding as_cache multi_get_tweets
  multi_get_through store pool sf ids s fresh stored calm =
      multi_get_lem store (as_cache json rand client) pool sf truth ids s
        (λ got s' h.
          subst (IsFine held json tweet_content id_of truth client law) (ap (λ p. p.0) h)
            (get_many-IsFine held json tweet_content id_of truth client law ids s fresh))
        stored calm
