-- ===== src/Worker.antt =====
-- internal/worker/fanout_worker.go. The rounds of `Start` take the times that the two calls of
-- `time.Now` return; the sleeps are time that passes between rounds.
pub mod Breaker
pub mod Tasks
pub mod Drain
pub mod Pending
pub mod Spread
use aita.Common.{
  ℕ, suc, ◌+◌, ℤ, String, str_eq, Bool, true, false, Option, none, some, List, [], ◌∷◌, ltb, leb,
  if◌then◌else◌,
}
use aita.Errcode.{Error}
use aita.Exec.{
  Result, ok, err, panic, Exec, ◌>>=◌, ◌>>◌, pure, raise, crash, Attempt, returned, failed, attempt,
}
use aita.Models.{Time}
use aita.Dto.TimeLine.{Codec, Values, FanoutTask, from_map, action_create, action_delete}
use aita.Pkg.Pool.{ignore}

pub record Message : Type 0 where
  pub id : String
  pub values : Values

pub record MqConsumer (S : Type 0) : Type 0 where
  pub dequeue : Exec S (Option Message)
  pub ack : String → Exec S Unit

pub record TimeLineHelper (S : Type 0) : Type 0 where
  pub fanout : ℤ → List ℤ → Time → Exec S Unit
  pub forward : ℤ → List ℤ → Exec S Unit

-- The local variables of `Start`.
pub record Loop : Type 0 where
  pub fail_count : ℕ
  pub breaker_until : Time

abbrev pub initial : Loop
initial = record { fail_count = 0; breaker_until = 0 }

abbrev pub quiet : Result (Unit {0}) → Result (Unit {0})
quiet panic = ok tt
quiet (ok x) = ok x
quiet (err e) = err e

-- A closure that the pool runs while the submitter waits for it. The pool recovers a panic; the
-- deferred `wg.Done()` has run by then, and `bizErr` is nil.
abbrev pub recovered : {S : Type 0} → Exec S Unit → Exec S Unit
recovered m s = let (r, s') = m s in (quiet r, s')

-- 30 * time.Second
abbrev pub breaker_pause : ℕ
breaker_pause = 30_000_000_000

module _ {S : Type 0} (c : Codec) (mq : MqConsumer S) (follower_ids : ℤ → Exec S (List ℤ))
    (tl : TimeLineHelper S) (submit : Exec S Unit) where
  abbrev pub fan_to : (List ℤ → Exec S Unit) → List ℤ → Exec S Unit
  fan_to spread [] = pure tt
  fan_to spread (f ∷ followers) = do submit; recovered (spread (f ∷ followers))

  -- processCreate
  unfoldable pub process_create : FanoutTask → Exec S Unit
  process_create task = do
    followers ← follower_ids task.author_id
    fan_to (λ ids. tl.fanout task.tweet_id ids task.created_at) followers

  -- processDelete
  unfoldable pub process_delete : FanoutTask → Exec S Unit
  process_delete task = do
    followers ← follower_ids task.author_id
    fan_to (λ ids. tl.forward task.tweet_id ids) followers

  abbrev pub dispatch : Result FanoutTask → Exec S Unit
  dispatch (err e) = pure tt
  dispatch panic = crash
  dispatch (ok task) =
      if str_eq task.action action_create
      then process_create task
      else if str_eq task.action action_delete
      then process_delete task
      else pure tt

  -- handleTask: a message that cannot be read is discarded, with no error.
  unfoldable pub handle_task : String → Values → Exec S Unit
  handle_task message_id values = dispatch (from_map c message_id values)

  -- What a round does with the outcome of `handleTask`.
  abbrev pub settle : Time → Loop → Message → Attempt (Unit {0}) → Exec S Loop
  settle now' l message (returned _) = do
    ignore (mq.ack message.id)
    pure (record l { fail_count = 0 })
  settle now' l message (failed e) =
      if leb 20 (l.fail_count + 1)
      then pure (record { fail_count = 0; breaker_until = now' + breaker_pause })
      else pure (record l { fail_count = l.fail_count + 1 })

  abbrev pub receive : Time → Loop → Attempt (Option Message) → Exec S Loop
  receive now' l (failed e) = pure l
  receive now' l (returned none) = pure l
  receive now' l (returned (some message)) = do
    outcome ← attempt (handle_task message.id message.values)
    settle now' l message outcome

  -- One round of the loop of `Start`.
  unfoldable pub round : Time → Time → Loop → Exec S Loop
  round now now' l =
      if ltb now l.breaker_until then pure l else do got ← attempt mq.dequeue; receive now' l got

  -- `Start`, for the rounds that begin before the context is done.
  unfoldable pub start : List (Time × Time) → Loop → Exec S Loop
  start [] l = pure l
  start ((now, now') ∷ times) l = do l' ← round now now' l; start times l'
