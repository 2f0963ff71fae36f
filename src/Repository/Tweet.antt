-- ===== src/Repository/Tweet.antt =====
-- internal/repository/tweet_repository.go. The store, the cache, the pool and the flights are the
-- interfaces that the file declares or imports, over one shared state `S`.
pub mod Calm
pub mod MultiGet
use aita.Common.{
  ℤ, is_nonpos, int_eq, String, Bool, true, false, ◌||◌, Option, none, some, List, [], ◌∷◌,
  if◌then◌else◌,
}
use aita.Errcode.{internal, tweet_not_found}
use aita.Exec.{Exec, ◌>>=◌, ◌>>◌, pure, fail, Attempt, returned, failed, attempt}
use aita.Models.{Tweet}
use aita.Dto.Tweet.{TweetRecord, to_model, new_tweet_record}
use aita.Dto.User.{is_negative}
use aita.Pkg.Pool.{Pool, ignore, on_error}
use aita.Pkg.Singleflight.{Group, Waits, get_data_with_sf}
use aita.Service.Tweet.{TweetRepository}
use aita.Repository.Batch.{empty_map, missed, insert_all, collect}

pub record TweetStore (S : Type 0) : Type 0 where
  pub create_tweet : Tweet → Exec S (Option Tweet)
  pub get_tweet_by_tweet_id : ℤ → Exec S (Option Tweet)
  pub update_content : String → ℤ → Exec S (Option Tweet)
  pub delete_tweet : ℤ → Exec S Unit
  pub get_tweets_by_tweet_ids : List ℤ → Exec S (List Tweet)
  pub get_tweet_ids_by_author : ℤ → ℤ → ℤ → Exec S (List ℤ)

-- `map[int64]*models.Tweet`
abbrev pub TweetMap : Type 0
TweetMap = ℤ → Option Tweet

-- A nil map is `none`.
pub record TweetCache (S : Type 0) : Type 0 where
  pub set_tweet : Tweet → Exec S Unit
  pub get_tweet : ℤ → Exec S (Option Tweet)
  pub invalidate : ℤ → Exec S Unit
  pub multi_get_tweets : List ℤ → Exec S (Option TweetMap)
  pub multi_set_tweets : List Tweet → Exec S Unit

-- The closures that the repository submits to the pool.
pub data Task : Type 0 where
  backfill : Tweet → Task
  delayed_invalidate : ℤ → Task
  multi_backfill : List Tweet → Task

-- The keys of its flights, each a format with its arguments.
pub data Key : Type 0 where
  tweet_key : ℤ → Key
  my_tweets_key : ℤ → ℤ → ℤ → Key

abbrev pub Flown : Key → Type 0
Flown (tweet_key id) = Option Tweet
Flown (my_tweets_key user page size) = List ℤ

-- The map and the dropped error of `MultiGetTweets`, which returns no map beside an error.
abbrev pub map_of : Attempt (Option TweetMap) → TweetMap
map_of (returned (some m)) = m
map_of (returned none) = empty_map
map_of (failed e) = empty_map

abbrev pub id_of : Tweet → ℤ
id_of t = t.id

abbrev pub record_of : Tweet → TweetRecord
record_of t = new_tweet_record (some t)

module _ {S : Type 0} (cache : TweetCache S) where
  -- The bodies of the closures.
  unfoldable pub run_task : Task → Exec S Unit
  run_task (backfill t) = on_error (cache.set_tweet t) (ignore (cache.invalidate t.id))
  run_task (delayed_invalidate id) = ignore (cache.invalidate id)
  run_task (multi_backfill ts) = ignore (cache.multi_set_tweets ts)

module _ {S : Type 0} (store : TweetStore S) (cache : TweetCache S) (pool : Pool S Task)
    (sf : Group S Flown) where
  abbrev saved_tweet : Option Tweet → Exec S TweetRecord
  saved_tweet none = fail internal
  saved_tweet (some t) = do
    on_error (pool.submit (backfill t)) (ignore (cache.invalidate t.id))
    pure (new_tweet_record (some t))

  -- Create
  unfoldable pub create : Option TweetRecord → Exec S TweetRecord
  create rec = do db_tweet ← store.create_tweet (to_model rec); saved_tweet db_tweet

  -- Update
  unfoldable pub update : String → ℤ → Exec S TweetRecord
  update new_content tweet_id = do
    tweet ← store.update_content new_content tweet_id
    ignore (cache.invalidate tweet_id)
    ignore (pool.submit (delayed_invalidate tweet_id))
    pure (new_tweet_record tweet)

  -- Delete
  unfoldable pub delete : ℤ → Exec S Unit
  delete tweet_id = do store.delete_tweet tweet_id; ignore (cache.invalidate tweet_id)

  abbrev fetched_tweet : Option Tweet → Exec S TweetRecord
  fetched_tweet none = fail tweet_not_found
  fetched_tweet (some t) = do ignore (pool.submit (backfill t)); pure (new_tweet_record (some t))

  abbrev on_miss : Waits → ℤ → Exec S TweetRecord
  on_miss w tweet_id = do
    tweet ← get_data_with_sf w sf (tweet_key tweet_id) (store.get_tweet_by_tweet_id tweet_id)
    fetched_tweet tweet

  abbrev hit_or_miss : Waits → ℤ → Attempt (Option Tweet) → Exec S TweetRecord
  hit_or_miss w tweet_id (returned (some t)) = pure (new_tweet_record (some t))
  hit_or_miss w tweet_id (returned none) = on_miss w tweet_id
  hit_or_miss w tweet_id (failed e) = on_miss w tweet_id

  -- Get
  unfoldable pub get : Waits → ℤ → Exec S TweetRecord
  unfolding get_data_with_sf
  get w tweet_id = do cached ← attempt (cache.get_tweet tweet_id); hit_or_miss w tweet_id cached

  -- The part of `MultiGet` that asks the store for what the cache missed.
  abbrev fill : TweetMap → List ℤ → Exec S TweetMap
  fill m [] = pure m
  fill m (id ∷ ids) = do
    db_tweets ← store.get_tweets_by_tweet_ids (id ∷ ids)
    ignore (pool.submit (multi_backfill db_tweets))
    pure (insert_all id_of m db_tweets)

  abbrev multi_get_some : List ℤ → Exec S (List TweetRecord)
  multi_get_some tweet_ids = do
    got ← attempt (cache.multi_get_tweets tweet_ids)
    full ← fill (map_of got) (missed (map_of got) tweet_ids)
    pure (collect record_of full tweet_ids)

  -- MultiGet
  unfoldable pub multi_get : List ℤ → Exec S (List TweetRecord)
  multi_get [] = pure []
  multi_get (id ∷ ids) = multi_get_some (id ∷ ids)

  -- GetTweetsByAuthor
  unfoldable pub get_tweets_by_author : Waits → ℤ → ℤ → ℤ → Exec S (List ℤ)
  unfolding get_data_with_sf
  get_tweets_by_author w user_id page size =
      if is_negative page || is_nonpos size
      then pure []
      else get_data_with_sf w sf (my_tweets_key user_id page size)
          (store.get_tweet_ids_by_author user_id page size)

  -- The repository as the interface of the service. No method returns a nil record without an
  -- error.
  unfoldable pub as_interface : Waits → TweetRepository S
  as_interface w = record {
    create = λ r. (do t ← create (some r); pure (some t));
    get = λ id. (do t ← get w id; pure (some t));
    update = λ c id. (do t ← update c id; pure (some t));
    delete = delete;
    multi_get = multi_get;
    get_tweets_by_author = get_tweets_by_author w;
  }
