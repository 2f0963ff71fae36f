-- ===== src/Pkg/MessageQueue.antt =====
-- internal/pkg/messagequeue/redis_mq.go. The commands for streams of the Redis client are a
-- parameter, `Streams`; `text_of` is the method `Error` of an error.
use aita.Common.{
  ℕ, nat_eq, String, str_eq, Bool, false, Option, none, some, List, [], ◌∷◌, if◌then◌else◌,
}
use aita.Errcode.{Error, sentinel, wrapped, foreign}
use aita.Exec.{Exec, ◌>>=◌, pure, raise, crash, Attempt, returned, failed, attempt, wrap_err}
use aita.Dto.TimeLine.{Values}
use aita.Worker.{Message, MqConsumer}

-- `x_add` takes the stream, the length to which it may be cut, and the values; `x_read_group` the
-- group, the consumer, the stream, the ID to read from, the count and how long to wait.
pub record Streams (S : Type 0) : Type 0 where
  pub text_of : Error → String
  pub x_group_create_mk_stream : String → String → String → Exec S Unit
  pub x_add : String → ℕ → Values → Exec S Unit
  pub x_read_group : String → String → String → String → ℕ → ℕ → Exec S (List (List Message))
  pub x_ack : String → String → String → Exec S Unit

pub record RedisMq : Type 0 where
  pub stream : String
  pub group : String
  pub consumer : String

abbrev busy_group : String
busy_group = "BUSYGROUP Consumer Group name already exists"

-- 5 * time.Second
abbrev pub block : ℕ
block = 5_000_000_000

-- `err == redis.Nil`
abbrev pub is_nil : Error → Bool
is_nil (foreign n) = nat_eq n 100
is_nil (sentinel c) = false
is_nil (wrapped e) = false

module _ {S : Type 0} (client : Streams S) (mq : RedisMq) where
  abbrev created : Attempt (Unit {0}) → Exec S Unit
  created (returned _) = pure tt
  created (failed e) = if str_eq (client.text_of e) busy_group then pure tt else raise e

  -- InitMQ
  unfoldable pub init_mq : Exec S Unit
  init_mq = do made ← attempt (client.x_group_create_mk_stream mq.stream mq.group "0"); created made

  -- Enqueue
  unfoldable pub enqueue : Values → Exec S Unit
  enqueue values = wrap_err (client.x_add mq.stream 100_000 values)

  abbrev first_message : List Message → Exec S (Option Message)
  first_message [] = crash
  first_message (raw ∷ messages) = pure (some raw)

  abbrev read : Attempt (List (List Message)) → Exec S (Option Message)
  read (failed e) = if is_nil e then pure none else raise e
  read (returned []) = pure none
  read (returned (messages ∷ entries)) = first_message messages

  -- Dequeue
  unfoldable pub dequeue : Exec S (Option Message)
  dequeue = do
    entries ← attempt (client.x_read_group mq.group mq.consumer mq.stream ">" 1 block)
    read entries

  -- Ack
  unfoldable pub ack : String → Exec S Unit
  ack msg_id = wrap_err (client.x_ack mq.stream mq.group msg_id)

  -- The queue as the interface of the worker.
  unfoldable pub as_consumer : MqConsumer S
  as_consumer = record { dequeue = dequeue; ack = ack }
