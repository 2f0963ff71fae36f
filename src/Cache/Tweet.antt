-- ===== src/Cache/Tweet.antt =====
-- internal/cache/tweet_cache.go
pub mod Sound
use aita.Common.{ℕ, ◌+◌, ◌*◌, ℤ, pos, String, true, false, Option, none, some, List, if◌then◌else◌}
use aita.Errcode.{Error}
use aita.Exec.{Result, ok, err, panic, Exec, ◌>>=◌, ◌>>◌, pure, raise, crash, lift}
use aita.Models.{Tweet}
use aita.Pkg.Json.{Json}
use aita.Pkg.Redis.{
  Key, tweet_content, set, get, del, Client, redis_nil, is_redis_nil, as_text, as_unit, ask,
}
use aita.Pkg.Utils.{Rand, hour, get_random_expiration}
use aita.Cache.Batch.{get_many, set_many}
use aita.Repository.Tweet.{TweetMap, TweetCache}

module _ {S : Type 0} (json : Json Tweet) (rand : Rand S) (client : Client S) where
  abbrev set_marshalled : Tweet → Result String → Exec S Unit
  set_marshalled tweet (ok bytes) = do
    ttl ← get_random_expiration rand (pos (12 * hour)) (pos (6 * hour))
    ask client as_unit (set (tweet_content tweet.id) bytes ttl)
  set_marshalled tweet (err e) = raise e
  set_marshalled tweet panic = crash

  -- SetTweet
  unfoldable pub set_tweet : Tweet → Exec S Unit
  set_tweet tweet = set_marshalled tweet (json.marshal tweet)

  abbrev pub fetched : Result String → Exec S (Option Tweet)
  fetched (ok bytes) = do tweet ← lift (json.unmarshal bytes); pure (some tweet)
  fetched (err e) = if is_redis_nil e then raise redis_nil else raise e
  fetched panic = crash

  -- GetTweet
  unfoldable pub get_tweet : ℤ → Exec S (Option Tweet)
  get_tweet tweet_id s =
      let (r, s') = client.run (get (tweet_content tweet_id)) s in fetched (as_text r) s'

  -- MultiGetTweets
  unfoldable pub multi_get_tweets : List ℤ → Exec S (Option TweetMap)
  multi_get_tweets tweet_ids = get_many json client tweet_content tweet_ids

  -- Invalidate
  unfoldable pub invalidate : ℤ → Exec S Unit
  invalidate tweet_id = ask client as_unit (del (tweet_content tweet_id))

  -- MultiSetTweets
  unfoldable pub multi_set_tweets : List Tweet → Exec S Unit
  multi_set_tweets tweets =
      set_many json client (λ t. tweet_content t.id)
        (get_random_expiration rand (pos (24 * hour)) (pos (3 * hour))) tweets

  -- The cache as the interface of the repository.
  unfoldable pub as_cache : TweetCache S
  as_cache = record {
    set_tweet = set_tweet;
    get_tweet = get_tweet;
    invalidate = invalidate;
    multi_get_tweets = multi_get_tweets;
    multi_set_tweets = multi_set_tweets;
  }
