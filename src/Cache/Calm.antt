-- ===== src/Cache/Calm.antt =====
-- The reads of internal/cache end without a panic.
use aita.Common.{ℤ, String, Option, none, some, List, [], ◌∷◌}
use aita.Errcode.{Error}
use aita.Exec.{Result, ok, err, panic}
use aita.Exec.Calm.{Lands, Any, Calm, Calm-pure, Calm-raise, Calm-lift, Calm-if, Calm-bind}
use aita.Dto.TimeLine.{Codec}
use aita.Models.{Tweet, UserInfo}
use aita.Pkg.Json.{Json}
use aita.Pkg.Utils.{Rand}
use aita.Pkg.Redis.{
  tweet_content, Key, get, Reply, Client, redis_nil, is_redis_nil, as_text, as_number, as_texts,
  as_unit, ask, piped,
}
use aita.Pkg.Calm.{
  Calm-ask, Calm-piped, as_text-Lands, as_number-Lands, as_texts-Lands, as_unit-Lands,
}
use aita.Db.Calm.{IsCalmJson}
use aita.Cache.Batch.{finished, get_many}

module _ {S A : Type 0} (json : Json A) (client : Client S) where
  get_many-Calm : (key_of : ℤ → Key) (ids : List ℤ) → Calm Any (get_many json client key_of ids)
  get_many-Calm key_of [] = Calm-pure _ tt
  get_many-Calm key_of (id ∷ ids) = Calm-bind _ _ (Calm-piped client _) by_executed
    where
      by_executed : (r : Option Error × List Reply) → Calm Any (finished json client (id ∷ ids) r)
      by_executed (none, replies) = Calm-pure _ tt
      by_executed (some e, replies) =
          Calm-if (is_redis_nil e) _ _ (Calm-raise redis_nil) (Calm-raise e)

module _ {S : Type 0} (c : Codec) (json : Json UserInfo) (rand : Rand S) (client : Client S) where
  pub user_exists-Calm : (id : ℤ) → Calm Any (aita.Cache.User.user_exists c json rand client id)
  unfolding aita.Cache.User.user_exists
  user_exists-Calm id =
      Calm-bind _ _ (Calm-ask client as_number _ as_number-Lands) (λ n. Calm-pure _ tt)

  pub get_lists-Calm : (ids : List ℤ) → Calm Any (aita.Cache.User.get_lists c json rand client ids)
  unfolding aita.Cache.User.get_lists
  get_lists-Calm ids = get_many-Calm json client aita.Pkg.Redis.user_data ids

module _ {S : Type 0} (json : Json Tweet) (rand : Rand S) (client : Client S) where
  pub get_tweet-Calm :
      IsCalmJson json → (id : ℤ) → Calm Any (aita.Cache.Tweet.get_tweet json rand client id)
  unfolding aita.Cache.Tweet.get_tweet
  get_tweet-Calm calm id = record {
    at = λ s.
        (by_text (as_text (client.run (get (tweet_content id)) s).0)
            (as_text-Lands (client.run (get (tweet_content id)) s).0)).at
          (client.run (get (tweet_content id)) s).1;
  }
    where
      by_text :
          (r : Result String) → Lands Any r → Calm Any (aita.Cache.Tweet.fetched json rand client r)
      by_text panic h = absurd h
      by_text (err e) h = Calm-if (is_redis_nil e) _ _ (Calm-raise redis_nil) (Calm-raise e)
      by_text (ok bytes) h =
          Calm-bind _ _ (Calm-lift (json.unmarshal bytes) (calm.unmarshals bytes))
            (λ t. Calm-pure _ tt)

  pub invalidate-Calm : (id : ℤ) → Calm Any (aita.Cache.Tweet.invalidate json rand client id)
  unfolding aita.Cache.Tweet.invalidate
  invalidate-Calm id = Calm-ask client as_unit _ as_unit-Lands

module _ {S : Type 0} (c : Codec) (rand : Rand S) (client : Client S) where
  pub get_relation-Calm : (a b : ℤ) → Calm Any (aita.Cache.Follow.get_relation c rand client a b)
  unfolding aita.Cache.Follow.get_relation
  get_relation-Calm a b =
      Calm-bind (piped client (aita.Cache.Follow.relation_commands c rand client a (c.format b))) _
        (Calm-piped client _) by_executed
    where
      by_executed :
          (r : Option Error × List Reply) → Calm Any (aita.Cache.Follow.related c rand client r)
      by_executed (e, replies) = Calm-if _ _ _ (Calm-raise redis_nil) (Calm-pure _ tt)

  find_ids-Calm : (k : Key) → Calm Any (aita.Cache.Follow.find_ids_from_z_set c rand client k)
  unfolding aita.Cache.Follow.find_ids_from_z_set
  find_ids-Calm k = Calm-bind _ _ (Calm-ask client as_texts _ as_texts-Lands) (λ v. Calm-pure _ tt)

  pub find_following_ids-Calm :
      (id : ℤ) → Calm Any (aita.Cache.Follow.find_following_ids c rand client id)
  unfolding aita.Cache.Follow.find_following_ids
  find_following_ids-Calm id = find_ids-Calm (aita.Pkg.Redis.following id)

  pub find_follower_ids-Calm :
      (id : ℤ) → Calm Any (aita.Cache.Follow.find_follower_ids c rand client id)
  unfolding aita.Cache.Follow.find_follower_ids
  find_follower_ids-Calm id = find_ids-Calm (aita.Pkg.Redis.follower id)
