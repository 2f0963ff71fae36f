-- ===== src/Main/App.antt =====
-- The parts as `main` of cmd/api/main.go puts them together, from the client of Redis and the
-- statements of Postgres to the router and the worker. What third parties provide is a parameter,
-- `Platform`; what one request or message reads of the clock, and how long it waits, is a `Moment`.
use aita.Common.{ℤ, pos, String, Option, List}
use aita.Exec.{Exec}
use aita.Models.{Time, Session, Tweet, UserInfo}
use aita.Dto.TimeLine.{Codec}
use aita.Pkg.Crypto.{Primitives, as_hasher, as_token_manager}
use aita.Pkg.Json.{Json}
use aita.Pkg.MessageQueue.{Streams, RedisMq, enqueue, as_consumer}
use aita.Pkg.Pool.{Pool}
use aita.Pkg.Redis.{Client}
use aita.Pkg.Singleflight.{Group, Waits}
use aita.Pkg.Utils.{Rand}
use aita.Db.Transactor.{base}
use aita.Db.User.{UserTable}
use aita.Db.Tweet.{TweetTable}
use aita.Db.Follow.{FollowTable}
use aita.Service.User.{UserRepository, PasswordHasher, register, login, to_my_account, exists}
use aita.Service.Session.{SessionRepository, TokenManager, UserInfoProvider, issue, revoke}
use aita.Service.Tweet.{
  TweetRepository, MessageSender, post_tweet, fetch_tweet, edit_tweet, remove_tweet, get_tweets,
  get_my_tweets,
}
use aita.Service.Follow.{
  FollowRepository, FollowService, new_follow_service, follow, unfollow, get_followers,
  get_followings, get_relation, get_follower_ids,
}
use aita.Service.Follow.Wiring.{as_count_manager}
use aita.Service.TimeLine.{TimeLineRepository, TweetProvider, fanout, forward}
use aita.Repository.User.{UserCache}
use aita.Repository.Tweet.{TweetCache}
use aita.Repository.Follow.{FollowCache}
use aita.Api.Auth.{AuthSessionService}
use aita.Api.Auth.Identity.{session_service}
use aita.Api.Response.{Sent}
use aita.Api.Router.{Call, serve}
use aita.Worker.{TimeLineHelper, Loop, start}

-- A pool of ants runs a closure, or keeps it for later, or refuses it. `taken` is `Submit` by a
-- caller that waits for its closure, which the caller's model runs.
pub record Ants (S : Type 0) : Type 0 where
  pub submit : Exec S Unit → Exec S Unit
  pub taken : Exec S Unit

-- The keys of the flights of each group are formats with their arguments.
pub record Platform (S Bytes : Type 0) : Type 0 where
  pub redis : Client S
  pub streams : Streams S
  pub users : UserTable S
  pub users_tx : UserTable S
  pub tweets : TweetTable S
  pub follows : FollowTable S
  pub follows_tx : FollowTable S
  pub crypto : Primitives S Bytes
  pub rand : Rand S
  pub codec : Codec
  pub session_json : Json Session
  pub tweet_json : Json Tweet
  pub user_json : Json UserInfo
  pub user_flights : Group S aita.Repository.User.Flown
  pub tweet_flights : Group S aita.Repository.Tweet.Flown
  pub follow_flights : Group S aita.Repository.Follow.Flown
  pub home_flights : Group S aita.Service.TimeLine.Flown
  pub backfill_pool : Ants S
  pub worker_pool : Ants S
  pub mq : RedisMq
  pub request_strings : aita.Api.Request.Strings
  pub header_strings : aita.Api.Auth.Strings
  pub parse_id : String → Option ℤ
  pub go : Exec S Unit → S → S

-- The readings of `time.Now`: by the session store; by `Issue`, twice; by `Validate` and `Revoke`,
-- in `authenticate`; by `ShouldRefresh`, twice; by the goroutine of `RefreshAsync`; by `EditTweet`.
pub record Moment : Type 0 where
  pub stored : Time
  pub expires_from : Time
  pub created_at : Time
  pub authenticated : Time
  pub checked : Time
  pub remaining : Time
  pub refreshed : Time
  pub edited : Time
  pub waits : Waits

-- bcrypt.DefaultCost
abbrev default_cost : ℤ
default_cost = pos 10

module _ {S Bytes : Type 0} (p : Platform S Bytes) (t : Moment) where
  abbrev pub hasher : PasswordHasher S
  hasher = as_hasher p.crypto default_cost

  abbrev pub token_manager : TokenManager S
  token_manager = as_token_manager p.crypto

  abbrev pub user_cache : UserCache S
  user_cache = aita.Cache.User.as_cache p.codec p.user_json p.rand p.redis

  abbrev pub tweet_cache : TweetCache S
  tweet_cache = aita.Cache.Tweet.as_cache p.tweet_json p.rand p.redis

  abbrev pub follow_cache : FollowCache S
  follow_cache = aita.Cache.Follow.as_cache p.codec p.rand p.redis

  -- The pool as each of its users sees it.
  abbrev pub user_pool : Pool S aita.Repository.User.Task
  user_pool = record {
    submit = λ task. p.backfill_pool.submit (aita.Repository.User.run_task user_cache task);
  }

  abbrev pub tweet_pool : Pool S aita.Repository.Tweet.Task
  tweet_pool = record {
    submit = λ task. p.backfill_pool.submit (aita.Repository.Tweet.run_task tweet_cache task);
  }

  abbrev pub follow_pool : Pool S aita.Repository.Follow.Task
  follow_pool = record {
    submit = λ task. p.backfill_pool.submit (aita.Repository.Follow.run_task follow_cache task);
  }

  abbrev pub producer_pool : Pool S aita.Producer.Task
  producer_pool = record {
    submit = λ task. p.worker_pool.submit (aita.Producer.run_task (enqueue p.streams p.mq) task);
  }

  -- userRepository, called with a context without a transaction
  abbrev pub user_repository : UserRepository S
  user_repository =
      aita.Repository.User.as_interface (aita.Db.User.as_store p.users p.users_tx) user_cache
        user_pool p.user_flights t.waits base

  -- serviceRepository
  abbrev pub session_repository : SessionRepository S
  session_repository =
      aita.Repository.Session.as_interface
        (aita.Db.Session.as_store p.session_json p.redis t.stored)

  abbrev pub follow_repository : FollowRepository S
  follow_repository =
      aita.Repository.Follow.as_interface p.codec.unix
        (aita.Db.Follow.as_store p.follows p.follows_tx) follow_cache follow_pool p.follow_flights
        t.waits

  abbrev pub tweet_repository : TweetRepository S
  tweet_repository =
      aita.Repository.Tweet.as_interface (aita.Db.Tweet.as_store p.tweets) tweet_cache tweet_pool
        p.tweet_flights t.waits

  abbrev pub time_line_repository : TimeLineRepository S
  time_line_repository =
      aita.Repository.TimeLine.as_interface (aita.Cache.TimeLine.as_cache p.codec p.rand p.redis)

  -- userService, as the session service sees it
  abbrev pub user_info : UserInfoProvider S
  user_info = record { exists = exists user_repository hasher }

  -- userService and sessionService, as the handlers see them
  unfoldable pub user_service : aita.Api.User.UserService S
  user_service = record {
    register = register user_repository hasher;
    login = login user_repository hasher;
    to_my_account = to_my_account user_repository hasher;
  }

  unfoldable pub session_manager : aita.Api.User.SessionManager S
  session_manager = record {
    issue = issue session_repository user_info token_manager t.expires_from t.created_at;
    revoke = revoke session_repository user_info token_manager t.authenticated;
  }

  -- sessionService, as the middleware sees it
  unfoldable pub auth_service : AuthSessionService S
  unfolding session_service
  auth_service =
      session_service session_repository user_info token_manager p.go t.authenticated t.checked
        t.remaining t.refreshed

  -- fanoutProducer
  abbrev pub fanout_producer : MessageSender S
  fanout_producer = aita.Producer.as_sender p.codec producer_pool

  -- tweetService, as the handlers see it and as the timeline service does
  unfoldable pub tweet_service : aita.Api.Tweet.TweetService S
  tweet_service = record {
    post_tweet = post_tweet tweet_repository fanout_producer;
    fetch_tweet = fetch_tweet tweet_repository fanout_producer;
    edit_tweet = edit_tweet tweet_repository fanout_producer t.edited;
    remove_tweet = remove_tweet tweet_repository fanout_producer;
  }

  unfoldable pub tweet_provider : TweetProvider S
  tweet_provider = record {
    get_tweets = get_tweets tweet_repository fanout_producer;
    get_my_tweets = get_my_tweets tweet_repository fanout_producer;
  }

  -- followService, without a transaction manager
  unfoldable pub follow_service : FollowService S
  unfolding new_follow_service
  follow_service =
      new_follow_service follow_repository
        (as_count_manager p.users p.users_tx user_cache user_pool p.user_flights hasher t.waits)

  unfoldable pub follow_handlers_service : aita.Api.Follow.FollowService S
  unfolding follow_service
  follow_handlers_service = record {
    follow = follow follow_service;
    un_follow = unfollow follow_service;
    get_followers = get_followers follow_service;
    get_followings = get_followings follow_service;
    get_relation = get_relation follow_service;
  }

  abbrev home_pool : Pool S aita.Service.TimeLine.Task
  home_pool = record {
    submit =
        λ task. p.backfill_pool.submit (aita.Service.TimeLine.run_task time_line_repository task);
  }

  -- timeLineService, as the worker sees it
  unfoldable pub time_line_helper : TimeLineHelper S
  unfolding tweet_provider
  time_line_helper = record {
    fanout = fanout time_line_repository tweet_provider home_pool p.home_flights;
    forward = forward time_line_repository tweet_provider home_pool p.home_flights;
  }

  -- fanoutWorker.Start
  unfoldable pub run_worker : List (Time × Time) → Loop → Exec S Loop
  unfolding time_line_helper follow_service
  run_worker =
      start p.codec (as_consumer p.streams p.mq) (get_follower_ids follow_service) time_line_helper
        p.worker_pool.taken

  -- router: what a call with an `Authorization` header is answered.
  unfoldable pub answer : String → Call → Exec S Sent
  unfolding user_service session_manager tweet_service follow_handlers_service auth_service
  answer =
      serve p.request_strings p.parse_id user_service session_manager tweet_service
        follow_handlers_service auth_service p.header_strings
