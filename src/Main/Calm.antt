-- ===== src/Main/Calm.antt =====
-- The router as `main` of cmd/api/main.go builds it answers every call, but for the two that open a
-- transaction.
pub mod Users
use aita.Common.{ℕ, ℤ, String, ◌≡◌, ◌≢◌, refl, false, some}
use aita.Errcode.{Error}
use aita.Exec.{Result, ok, err, panic, Exec}
use aita.Exec.Speaks.{Speaks}
use aita.Api.Router.Speaks.{serve-Speaks}
use aita.Main.Calm.Users.{
  IsCalmPlatform, user_repository-IsCalm, hasher-IsCalm, user_service-IsCalm,
  session_manager-IsCalm, auth_service-IsCalm,
}
use aita.Exec.Calm.{Lands, Any, IsSome, Calm, Calm-pure, Calm-lift, Calm-bind, Calm-any}
use aita.Models.{Session}
use aita.Pkg.Crypto.{generate_hash, compare_hash, generate_token, as_hasher, as_token_manager}
use aita.Pkg.Calm.{IsCalmPool, IsCalmGroup, Calm-ignore}
use aita.Db.Calm.{
  IsCalmJson, create_user-Calm, get_by_email-Calm, get_full_by_id-Calm, get_names_by_ids-Calm,
  create_tweet-Calm, get_tweet-Calm, update_content-Calm, delete_tweet-Calm, get_followings-Calm,
  get_followers-Calm, get_relationship-Calm, create_session-Calm, get_session-Calm,
  delete_session-Calm,
}
use aita.Repository.User.Calm.{IsCalmUserStore, IsCalmUserCache}
use aita.Repository.Tweet.Calm.{IsCalmTweetStore, IsCalmTweetCache}
use aita.Repository.Follow.Calm.{IsCalmFollowStore, IsCalmFollowCache}
use aita.Repository.Session.Calm.{IsCalmSessionStore}
use aita.Service.User.Calm.{IsCalmUserRepository, IsCalmHasher}
use aita.Service.Tweet.Calm.{IsCalmTweetRepository, IsCalmSender}
use aita.Service.Follow.Calm.{IsCalmFollowRepository}
use aita.Service.Session.Calm.{IsCalmSessionRepository, should_refresh-Lands}
use aita.Api.Response.{Sent}
use aita.Api.Router.{Call}
use aita.Api.Router.Handlers.{
  IsCalmUsers, IsCalmSessions, IsCalmTweets, IsCalmFollows, changes_follows,
}
use aita.Api.Router.Calm.{IsCalmAuth, serve-Calm}
use aita.Main.App.{
  Ants, Platform, Moment, hasher, token_manager, user_cache, tweet_cache, follow_cache, user_pool,
  tweet_pool, follow_pool, producer_pool, user_repository, session_repository, follow_repository,
  tweet_repository, user_info, user_service, session_manager, auth_service, fanout_producer,
  tweet_service, follow_service, follow_handlers_service, answer,
}

module _ {S Bytes : Type 0} (p : Platform S Bytes) (t : Moment) (calm : IsCalmPlatform p) where
  -- The pools, as their users see them.
  tweet_pool-IsCalm : IsCalmPool (tweet_pool p t)
  tweet_pool-IsCalm = record { submits = λ task. calm.backfills _ }

  follow_pool-IsCalm : IsCalmPool (follow_pool p t)
  follow_pool-IsCalm = record { submits = λ task. calm.backfills _ }

  -- The tweets.
  tweet_store-IsCalm : IsCalmTweetStore (aita.Db.Tweet.as_store p.tweets)
  unfolding aita.Db.Tweet.as_store
  tweet_store-IsCalm = record {
    creates = create_tweet-Calm p.tweets;
    finds = get_tweet-Calm p.tweets;
    updates = update_content-Calm p.tweets;
    deletes = delete_tweet-Calm p.tweets;
  }

  tweet_cache-IsCalm : IsCalmTweetCache (tweet_cache p t)
  unfolding aita.Cache.Tweet.as_cache
  tweet_cache-IsCalm = record {
    finds = aita.Cache.Calm.get_tweet-Calm p.tweet_json p.rand p.redis calm.tweet_json;
    drops = aita.Cache.Calm.invalidate-Calm p.tweet_json p.rand p.redis;
  }

  tweet_repository-IsCalm : IsCalmTweetRepository (tweet_repository p t)
  unfolding aita.Repository.Tweet.as_interface
  tweet_repository-IsCalm = record {
    creates =
        aita.Repository.Tweet.Calm.creates-Calm _ _ _ _ tweet_store-IsCalm tweet_cache-IsCalm
          tweet_pool-IsCalm calm.tweet_flights t.waits;
    finds =
        aita.Repository.Tweet.Calm.gets-Calm _ _ _ _ tweet_store-IsCalm tweet_cache-IsCalm
          tweet_pool-IsCalm calm.tweet_flights t.waits;
    updates =
        aita.Repository.Tweet.Calm.updates-Calm _ _ _ _ tweet_store-IsCalm tweet_cache-IsCalm
          tweet_pool-IsCalm calm.tweet_flights t.waits;
    deletes =
        aita.Repository.Tweet.Calm.delete-Calm _ _ _ _ tweet_store-IsCalm tweet_cache-IsCalm
          tweet_pool-IsCalm calm.tweet_flights;
  }

  fanout_producer-IsCalm : IsCalmSender (fanout_producer p t)
  unfolding aita.Producer.as_sender aita.Producer.async_to_mq
  fanout_producer-IsCalm = record { sends = λ id author at action. Calm-ignore _ (calm.works _) }

  tweet_service-IsCalm : IsCalmTweets (tweet_service p t)
  unfolding tweet_service
  tweet_service-IsCalm = record {
    posts =
        aita.Service.Tweet.Calm.post_tweet-Calm _ _ tweet_repository-IsCalm fanout_producer-IsCalm;
    fetches =
        aita.Service.Tweet.Calm.fetch_tweet-Calm _ _ tweet_repository-IsCalm fanout_producer-IsCalm;
    edits =
        aita.Service.Tweet.Calm.edit_tweet-Calm _ _ tweet_repository-IsCalm fanout_producer-IsCalm
          t.edited;
    removes =
        aita.Service.Tweet.Calm.remove_tweet-Calm _ _ tweet_repository-IsCalm
          fanout_producer-IsCalm;
  }

  -- Who follows whom.
  follow_store-IsCalm : IsCalmFollowStore (aita.Db.Follow.as_store p.follows p.follows_tx)
  unfolding aita.Db.Follow.as_store
  follow_store-IsCalm = record {
    followings = get_followings-Calm p.follows p.follows_tx;
    followers = get_followers-Calm p.follows p.follows_tx;
    relations = get_relationship-Calm p.follows p.follows_tx;
  }

  follow_cache-IsCalm : IsCalmFollowCache (follow_cache p t)
  unfolding aita.Cache.Follow.as_cache
  follow_cache-IsCalm = record {
    relations = aita.Cache.Calm.get_relation-Calm p.codec p.rand p.redis;
    followings = aita.Cache.Calm.find_following_ids-Calm p.codec p.rand p.redis;
    followers = aita.Cache.Calm.find_follower_ids-Calm p.codec p.rand p.redis;
  }

  follow_repository-IsCalm : IsCalmFollowRepository (follow_repository p t)
  unfolding aita.Repository.Follow.as_interface
  follow_repository-IsCalm = record {
    followings =
        aita.Repository.Follow.Calm.get_followings-Calm _ _ _ _ _ follow_store-IsCalm
          follow_cache-IsCalm follow_pool-IsCalm calm.follow_flights t.waits;
    followers =
        aita.Repository.Follow.Calm.get_followers-Calm _ _ _ _ _ follow_store-IsCalm
          follow_cache-IsCalm follow_pool-IsCalm calm.follow_flights t.waits;
    relations =
        aita.Repository.Follow.Calm.check_relation-Calm _ _ _ _ _ follow_store-IsCalm
          follow_cache-IsCalm follow_pool-IsCalm calm.follow_flights t.waits;
  }

  follows-IsCalm : IsCalmFollows (follow_handlers_service p t)
  unfolding follow_handlers_service follow_service aita.Service.Follow.new_follow_service
      aita.Service.Follow.Wiring.as_count_manager
  follows-IsCalm = record {
    followers =
        aita.Service.Follow.Calm.get_followers-Calm (follow_service p t) follow_repository-IsCalm (
          aita.Service.User.Calm.get_info_lists-Calm _ _ (user_repository-IsCalm p t calm)
            (hasher-IsCalm p t calm));
    followings =
        aita.Service.Follow.Calm.get_followings-Calm (follow_service p t) follow_repository-IsCalm (
          aita.Service.User.Calm.get_info_lists-Calm _ _ (user_repository-IsCalm p t calm)
            (hasher-IsCalm p t calm));
    relations =
        aita.Service.Follow.Calm.get_relation-Calm (follow_service p t) follow_repository-IsCalm (
          aita.Service.User.Calm.get_info_lists-Calm _ _ (user_repository-IsCalm p t calm)
            (hasher-IsCalm p t calm));
  }

  calm-answer :
      (header : String) (call : Call)
      → changes_follows call ≡ false
      → Calm Any (answer p t header call)
  unfolding answer
  calm-answer header call h =
      serve-Calm p.request_strings p.parse_id (user_service p t) (session_manager p t)
        (tweet_service p t) (follow_handlers_service p t) (auth_service p t) p.header_strings
        (user_service-IsCalm p t calm) (session_manager-IsCalm p t calm) tweet_service-IsCalm
        follows-IsCalm (auth_service-IsCalm p t calm) header call h

  answer-Speaks : (header : String) (call : Call) → Speaks (answer p t header call)
  unfolding answer auth_service aita.Service.Session.refresh_async
  answer-Speaks header call =
      serve-Speaks p.request_strings p.parse_id (user_service p t) (session_manager p t)
        (tweet_service p t) (follow_handlers_service p t) (auth_service p t) p.header_strings
        (λ token. record { at = λ s e h. cc }) header call

  -- Every call of the router as `main` builds it, but following and unfollowing, is answered with a
  -- status and an envelope, whatever Postgres and Redis reply: neither an error nor a panic is left
  -- over, where encoding, the password hasher and the random source do not panic, a flight does not
  -- where its function does not, and the pools run what they are given on goroutines of their own.
  pub answer_total :
      (header : String) (call : Call) (s : S)
      → changes_follows call ≡ false
      → (sent : Sent) × ((answer p t header call s).0 ≡ ok sent)
  answer_total header call s h =
      by_outcome (answer p t header call s).0 ((calm-answer header call h).at s)
        ((answer-Speaks header call).at s)
    where
      by_outcome :
          (r : Result Sent)
          → Lands Any r
          → ((e : Error) → r ≢ err e)
          → (sent : Sent) × (r ≡ ok sent)
      by_outcome (ok sent) h k = (sent, refl)
      by_outcome (err e) h k = absurd (k e refl)
      by_outcome panic h k = absurd h
