-- ===== src/Lib.antt =====
-- AITA: a service for short messages in Go, with sessions, tweets, follows and home timelines, on
-- Postgres, Redis and a Redis stream.
--
-- The parts, from the client inwards. A request passes the middleware of internal/api, which asks
-- the session service who is calling; a handler calls one of the services of internal/service;
-- these call the repositories of internal/repository, which put a cache before a store of
-- internal/db, share concurrent reads through internal/pkg/singleflight and hand cache writes to a
-- pool of goroutines; a posted or removed tweet is announced by internal/producer, and
-- internal/worker takes the announcements and spreads them to the timelines of the followers.
--
-- How the code is written here. A method that reads or writes shared state is a function of type
-- `Exec S A`, from a state to an outcome and a state; the outcome is a value, an error or a panic
-- (Exec). An interface that a file declares is a record of such functions over one state type `S`,
-- and a constructor's arguments are section parameters. `time.Now()` is an argument, one for each
-- call; times are nanoseconds from Go's zero time, in ℕ; int64 is ℤ, without its
-- bounds but where a page is multiplied by a size, which wraps (`wrap_int`). A closure
-- that the code submits to a pool is a constructor of a type `Task` with what it captures, and
-- `run_task` is its body. Logging is left out.
--
-- The files:
--   Common (and below)      the shared names, Boolean tests, ℤ over the native numbers, lists
--   Exec                    outcomes, errors and panics; Keeps: what an action keeps of the state;
--                           Gives: what it returns; Calm: no panic; Speaks: no error
--   Errcode, Errcode/Laws   internal/errcode: Sentinel, get_status_code, filter_bind_error
--   Models                  internal/models
--   Dto (and below)         internal/dto, with the response records of internal/pkg/app
--   Pkg/Singleflight        internal/pkg/singleflight: GetDataWithSF
--   Pkg/Pool                the pool that the code submits to, a parameter, and internal/pkg/pool
--   Pkg/Redis, Pkg/Json     the Redis client and its commands, and encoding/json: parameters
--   Pkg/MessageQueue        internal/pkg/messagequeue/redis_mq.go
--   Pkg/Crypto              internal/pkg/crypto
--   Pkg/Utils               internal/pkg/utils/helper.go: GetRandomExpiration
--   Configuration           internal/configuration/configuration.go
--   Api/Request             internal/pkg/app/request.go: the four Validate methods
--   Api/Response            internal/pkg/app/response.go: the envelope; Status: when it agrees with
--                           the status; Paid: how an answer with a payload came about
--   Api/Auth, Auth/Identity internal/api/middleware.go and api_helper.go
--   Api/User, Tweet, Follow internal/api/user_handler.go, tweet_handler.go, follow_handler.go;
--                           User/SignedIn: what a login has done
--   Api/Router              internal/api/router.go; Answers: every answer; Callers: whom the
--                           protected routes act for; Handlers, Calm, Speaks: that there is an
--                           answer
--   Service/Session         internal/service/session_service.go; Laws: single calls; Lifetime:
--                           sequences of calls as steps (Step, Reach); Issued: a login
--   Service/Tweet, Laws     internal/service/tweet_service.go
--   Service/User, Laws      internal/service/user_service.go
--   Service/Follow          internal/service/follow_service.go; Laws: as it is wired; Atomic: with
--                           the transactor; Wiring: over the user service
--   Service/TimeLine        internal/service/timeline_serive.go; Home: the first page; Forward: whom a
--                           recall reaches
--   Repository/Batch        what the two reads of many entries share; Agree: against a table
--   Repository/Tweet        internal/repository/tweet_repository.go; MultiGet: against a table
--   Repository/Follow       internal/repository/follow_repository.go; Relation: who follows whom
--   Repository/Session      internal/repository/session_repository.go; Stores: from what
--                           a store promises to what the service relies on; Found: what was
--                           created
--   Repository/User, Infos  internal/repository/user_repository.go
--   Repository/TimeLine     internal/repository/timeline_repository.go; Pages: with FindRange
--   Cache/TimeLine          internal/cache/timeline_cache.go; Capped: how long timelines get;
--                           Lifetime: how long they live; Recall: whom a recall reaches
--   Cache/Batch, Sound      what the caches of tweets and users share
--   Cache/Tweet, Sound      internal/cache/tweet_cache.go
--   Cache/User, Sound       internal/cache/user_cache.go
--   Cache/Follow, Whole     internal/cache/follow_cache.go
--   Db/Driver               what the driver of Postgres answers, internal/db/const_db.go
--   Db/Transactor, Atomic   internal/db/base.go: conn and Exec
--   Db/Tweet, Laws          internal/db/tweet_store.go
--   Db/User, Db/Follow      internal/db/user_store.go and follow_store.go
--   Db/Session, Stored, Found
--                           internal/db/redis_session_store.go
--   Producer                internal/producer/fanout_producer.go
--   Worker                  internal/worker/fanout_worker.go; Breaker: the loop; Tasks: messages;
--                           Drain: the queue; Spread: how posts get through it;
--                           Pending: what fails
--   Main/App                cmd/api/main.go: the parts put together
--   Main/Process, Orderly   cmd/api/main.go: how the process starts and stops
--   Main/Login, SignIn      a session from the login to the requests that follow
--   Main/Calm (and below)   that calls are answered, from the files Calm of each part
--   Tests (and below)       the theorems at concrete inputs
--
-- Bounds. Nothing runs on fuel: the one loop without end, that of `Start`, is a recursion on the
-- list of the rounds that begin before its context is done, which is any list.
--
-- Not modelled. What only the tests of the repository use (internal/testconfig, testutils), and
-- internal/contextkeys/keys.go, whose function nothing calls. The packages of Go and of third parties (strings, regexp, strconv, time, encoding/json, math/rand, bcrypt, gin, ants,
-- singleflight, the drivers) are parameters, and what a theorem relies on is among its hypotheses
-- (IsSessionStore, IsTextStore, IsWriting, IsReadable, IsEncoding, IsAnswering, IsRefusing, IsSortedSets, IsPresence, IsQueue, IsReaching, IsGroup, IsApart, IsTransactional,
-- Answers, IsFaithful, IsBounded). A script of Redis is the sequence of its commands, which Redis runs
-- with no others between them.
-- Goroutines of two requests do not interleave within a method; what another flight hands over
-- and what the pool does with a task is up to the parameters.
pub mod Common
pub mod Api
pub mod Errcode
pub mod Exec
pub mod Models
pub mod Dto
pub mod Pkg
pub mod Service
pub mod Repository
pub mod Cache
pub mod Db
pub mod Configuration
pub mod Producer
pub mod Worker
pub mod Main
pub mod Tests
