-- ===== src/Main/Process.antt =====
-- `main` of cmd/api/main.go as the sequence of what it does, given what the calls that it looks at
-- answer. `log.Fatal` and `os.Exit` end the process, and run no deferred call.
pub mod Orderly
use Prim.Native.String.{◌++◌}
use aita.Common.{ℕ, ℤ, String, str_eq, Bool, Option, none, some, List, [], ◌∷◌, if◌then◌else◌}
use aita.Configuration.{Surroundings, Config, load_config}
use aita.Pkg.MessageQueue.{RedisMq}

-- `shut_down` is with whether `Shutdown` succeeded.
pub data Event : Type 0 where
  set_mode : Bool → Event
  connect : String → Event
  limit_connections : ℤ → ℤ → ℤ → Event
  new_client : String → String → ℤ → ℤ → Event
  ping : Event
  new_backfill_pool : ℤ → Event
  new_worker_pool : ℤ → Event
  init_mq : RedisMq → Event
  go_worker : Event
  go_server : String → Event
  shut_down : Bool → Event
  cancel_worker : Event
  sleep : ℕ → Event
  release_worker_pool : Event
  release_backfill_pool : Event
  close_database : Event
  close_redis : Event

pub data Ending : Type 0 where
  finished : Ending
  exited : Ending

-- Which of the calls succeed; `listens` is that `ListenAndServe` goes on until the signal comes,
-- `shuts_down` that `Shutdown` ends before its five seconds are over. If it does not, `main` logs the
-- error and goes on.
pub record Answers : Type 0 where
  pub connected : Bool
  pub pinged : Bool
  pub has_backfill_pool : Bool
  pub has_worker_pool : Bool
  pub has_mq : Bool
  pub listens : Bool
  pub shuts_down : Bool

-- After `<-quit`; then the deferred calls, the last one first.
abbrev pub shutdown : Bool → List Event
shutdown shuts_down =
    shut_down shuts_down
    ∷ cancel_worker
    ∷ sleep 5_000_000_000
    ∷ release_worker_pool
    ∷ release_backfill_pool
    ∷ close_database
    ∷ close_redis
    ∷ cancel_worker
    ∷ release_worker_pool
    ∷ release_backfill_pool
    ∷ close_database
    ∷ []

-- tweetMQ
abbrev pub tweet_mq : Config → RedisMq
tweet_mq config = record {
  stream = config.tweet_stream;
  group = config.fanout_group;
  consumer = "api-server-1";
}

abbrev Run : Type 0
Run = List Event × Ending

abbrev and_then : List Event → Run → Run
and_then [] run = run
and_then (e ∷ es) run = let (events, ending) = and_then es run in (e ∷ events, ending)

-- `if err != nil { log.Fatal(…) }`, or the rest.
abbrev go_on : Bool → Run → Run
go_on succeeded rest = if succeeded then rest else ([], exited)

-- `main` with its configuration.
unfoldable pub run : Config → Answers → Run
run config a =
    and_then (set_mode (str_eq config.app_env "production") ∷ connect config.db_conn_str ∷ []) (
      go_on a.connected (
        and_then
          (limit_connections config.db_max_open_conns config.db_max_idle_conns
              config.db_conn_max_lifetime
            ∷ new_client (config.redis_host ++ ":" ++ config.redis_port) config.redis_password
                config.redis_pool_size config.redis_min_idle_conns
            ∷ ping
            ∷ [])
          (go_on a.pinged (
            and_then (new_backfill_pool config.backfill_pool_size ∷ []) (
              go_on a.has_backfill_pool (
                and_then (new_worker_pool config.worker_pool_size ∷ []) (
                  go_on a.has_worker_pool (
                    and_then (init_mq (tweet_mq config) ∷ []) (
                      go_on a.has_mq (
                        and_then (go_worker ∷ go_server config.server_address ∷ []) (
                          go_on a.listens
                            (and_then (shutdown a.shuts_down) ([], finished)))))))))))))

abbrev pub configured : Option Config → Answers → Run
configured none a = ([], exited)
configured (some config) a = run config a

-- main
unfoldable pub main : Surroundings → Answers → Run
unfolding run load_config
main os a = configured (load_config os) a
