-- ===== src/Producer.antt =====
-- internal/producer/fanout_producer.go
use aita.Common.{ℤ, String}
use aita.Exec.{Exec}
use aita.Models.{Time}
use aita.Dto.TimeLine.{Codec, Values, new_fanout_task, to_map}
use aita.Pkg.Pool.{Pool, ignore}
use aita.Service.Tweet.{MessageSender}

-- The closure that `AsyncToMQ` submits, with the map that it captures.
pub data Task : Type 0 where
  enqueue : Values → Task

module _ {S : Type 0} (enqueuer : Values → Exec S Unit) where
  -- The body of the closure.
  unfoldable pub run_task : Task → Exec S Unit
  run_task (enqueue values) = ignore (enqueuer values)

module _ {S : Type 0} (c : Codec) (pool : Pool S Task) where
  -- AsyncToMQ: what the pool says is logged, and the caller is told of no error.
  unfoldable pub async_to_mq : ℤ → ℤ → Time → String → Exec S Unit
  async_to_mq tweet_id author_id created_at action =
      ignore
        (pool.submit (enqueue (to_map c (new_fanout_task tweet_id author_id created_at action))))

  -- The producer as the interface of the tweet service.
  unfoldable pub as_sender : MessageSender S
  as_sender = record { async_to_mq = async_to_mq }
