-- ===== src/Main/Process/Orderly.antt =====
-- In which order `main` of cmd/api/main.go opens, uses and closes what it works with.
use aita.Common.{◌≡◌, Bool, true, false, not, ◌&&◌, List, [], ◌∷◌}
use aita.Main.Process.{
  Event, set_mode, connect, limit_connections, new_client, ping, new_backfill_pool, new_worker_pool,
  init_mq, go_worker, go_server, shut_down, cancel_worker, sleep, release_worker_pool,
  release_backfill_pool, close_database, close_redis, Ending, finished, exited,
}

-- What is open or running; `requests` is whether handlers may be at work.
pub record Open : Type 0 where
  pub database : Bool
  pub redis : Bool
  pub backfill_pool : Bool
  pub worker_pool : Bool
  pub stream : Bool
  pub worker : Bool
  pub listener : Bool
  pub requests : Bool

abbrev pub nothing : Open
nothing = record {
  database = false;
  redis = false;
  backfill_pool = false;
  worker_pool = false;
  stream = false;
  worker = false;
  listener = false;
  requests = false;
}

abbrev pub after : Event → Open → Open
after (connect url) o = record o { database = true }
after (new_client address password size idle) o = record o { redis = true }
after (new_backfill_pool n) o = record o { backfill_pool = true }
after (new_worker_pool n) o = record o { worker_pool = true }
after (init_mq mq) o = record o { stream = true }
after go_worker o = record o { worker = true }
after (go_server address) o = record o { listener = true; requests = true }
after (shut_down true) o = record o { listener = false; requests = false }
after (shut_down false) o = record o { listener = false }
after cancel_worker o = record o { worker = false }
after release_worker_pool o = record o { worker_pool = false }
after release_backfill_pool o = record o { backfill_pool = false }
after close_database o = record o { database = false }
after close_redis o = record o { redis = false }
after (set_mode b) o = o
after (limit_connections a b c) o = o
after ping o = o
after (sleep n) o = o

-- What the worker and the handlers call.
abbrev is_ready : Open → Bool
is_ready o = o.database && o.redis && o.backfill_pool && o.worker_pool && o.stream

abbrev is_idle : Open → Bool
is_idle o = not o.listener && not o.worker

-- What a step needs: what it uses is open, and what it gives up is no longer used.
abbrev pub needs : Event → Open → Bool
needs (limit_connections a b c) o = o.database
needs ping o = o.redis
needs (init_mq mq) o = o.redis
needs go_worker o = is_ready o
needs (go_server address) o = is_ready o
needs (shut_down b) o = o.listener
needs release_worker_pool o = is_idle o
needs release_backfill_pool o = is_idle o
needs close_database o = is_idle o && not o.worker_pool && not o.backfill_pool
needs close_redis o = is_idle o && not o.worker_pool && not o.backfill_pool
needs _ o = true

-- Every step has what it needs.
abbrev pub is_orderly : Open → List Event → Bool
is_orderly o [] = true
is_orderly o (e ∷ es) = needs e o && is_orderly (after e o) es

abbrev pub finally : Open → List Event → Open
finally o [] = o
finally o (e ∷ es) = finally (after e o) es

-- The group of the stream outlives the process.
abbrev pub at_rest : Open
at_rest = record nothing { stream = true }

-- It closes something that a handler may call.
abbrev is_closing : Event → Bool
is_closing release_worker_pool = true
is_closing release_backfill_pool = true
is_closing close_database = true
is_closing close_redis = true
is_closing _ = false

-- No handler is at work when something is closed.
abbrev pub spares_requests : Open → List Event → Bool
spares_requests o [] = true
spares_requests o (e ∷ es) = not (is_closing e && o.requests) && spares_requests (after e o) es

-- What is claimed of a run, given whether `Shutdown` succeeded.
abbrev pub IsClean : Bool → List Event × Ending → Type 0
IsClean shuts_down (events, exited) = is_orderly nothing events ≡ true
IsClean shuts_down (events, finished) =
    (is_orderly nothing events ≡ true)
    × (finally nothing events ≡ record at_rest { requests = not shuts_down })
    × (spares_requests nothing events ≡ shuts_down)
