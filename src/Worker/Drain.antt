-- ===== src/Worker/Drain.antt =====
-- That the worker gets through the queue: internal/worker/fanout_worker.go over
-- internal/pkg/messagequeue/redis_mq.go. `undelivered` is what the group has not been given of the
-- stream, `handled` what came of the messages that the handler has been through, `acked` the IDs of
-- those that were acknowledged, each in their order.
use aita.Common.{
  ◌≤◌, ℤ, String, length, le→ltb_false, ◌≡◌, ◌≢◌, refl, ap, ◌∙◌, List, [], ◌∷◌, ◌++◌, map, All,
  arith,
}
use aita.Exec.{Result, ok, err, panic, Exec, wrap_err}
use mathlib.Core.List.{append_assoc}
use aita.Models.{Time}
use aita.Dto.TimeLine.{Codec}
use aita.Pkg.Pool.{ignore_calm}
use aita.Pkg.MessageQueue.{Streams, RedisMq, block, dequeue, ack, as_consumer}
use aita.Worker.{Message, TimeLineHelper, Loop, handle_task, round, start}
use aita.Worker.Breaker.{AllFrom}

-- The loop after a message that was handled.
abbrev pub settled : Loop → Loop
settled l = record l { fail_count = 0 }

module _ {S P A : Type 0} (message_of : P → Message) (entry_of : P → A)
    (undelivered : S → List Message) (handled : S → List A) (acked : S → List String) where
  abbrev pub id_of : P → String
  id_of p = (message_of p).id

  -- What the worker relies on: the group is given the messages one by one, and acknowledging one
  -- does just that.
  pub record IsQueue (client : Streams S) (mq : RedisMq) : Type 0 where
    pub reads :
        (s : S) (m : Message) (ms : List Message)
        → undelivered s ≡ m ∷ ms
        → (s' : S) × (client.x_read_group mq.group mq.consumer mq.stream ">" 1 block s
            ≡ (ok ((m ∷ []) ∷ []), s'))
          × (undelivered s' ≡ ms)
          × (handled s' ≡ handled s)
          × (acked s' ≡ acked s)
    pub acks :
        (id : String) (s : S)
        → ((client.x_ack mq.stream mq.group id s).0 ≢ panic)
          × (undelivered (client.x_ack mq.stream mq.group id s).1 ≡ undelivered s)
          × (handled (client.x_ack mq.stream mq.group id s).1 ≡ handled s)
          × (acked (client.x_ack mq.stream mq.group id s).1 ≡ acked s ++ id ∷ [])

  module _ (client : Streams S) (mq : RedisMq) (law : IsQueue client mq) (c : Codec)
      (follower_ids : ℤ → Exec S (List ℤ)) (tl : TimeLineHelper S) (submit : Exec S Unit) where
    -- The handler succeeds on the message, and the entry joins those that were made.
    pub record Handles (p : P) : Type 0 where
      pub works :
          (s : S)
          → (s' : S) × (handle_task c
                (as_consumer client mq)
                follower_ids
                tl
                submit
                (id_of p)
                (message_of p).values
                s
              ≡ (ok tt, s'))
            × (undelivered s' ≡ undelivered s)
            × (handled s' ≡ handled s ++ entry_of p ∷ [])
            × (acked s' ≡ acked s)

    wrap_err-calm : (id : String) (s : S) → (ack client mq id s).0 ≢ panic
    unfolding ack
    wrap_err-calm id s = go (client.x_ack mq.stream mq.group id s).0 (law.acks id s).0
      where
        go : (r : Result (Unit {0})) → r ≢ panic → aita.Exec.wrap r ≢ panic
        go (ok x) h e = cc
        go (err x) h e = cc
        go panic h e = h refl

    -- After some rounds: what is left, and what has joined the others.
    pub record Through (s s' : S) (left : List Message) (done : List P) : Type 0 where
      pub leaves : undelivered s' ≡ left
      pub handles : handled s' ≡ handled s ++ map entry_of done
      pub acknowledges : acked s' ≡ acked s ++ map id_of done

    round_drains :
        (now now' : Time) (l : Loop) (m : P) (ms : List P) (s : S)
        → l.breaker_until ≤ now
        → Handles m
        → undelivered s ≡ map message_of (m ∷ ms)
        → (s' : S) × (round c (as_consumer client mq) follower_ids tl submit now now' l s
            ≡ (ok (settled l), s'))
          × Through s s' (map message_of ms) (m ∷ [])
    unfolding round as_consumer dequeue
    round_drains now now' l m ms s from h q =
        let (s1, given, left, same, same_acks) = law.reads s (message_of m) (map message_of ms) q in
        let (s2, done, left2, more, kept) = h.works s1 in
        let (calm, left3, same3, acknowledged) = law.acks (id_of m) s2 in
        (
          (ack client mq (id_of m) s2).1,
          rw (le→ltb_false l.breaker_until now from) (
              rw given (
                rw done
                  (rw (ignore_calm (ack client mq (id_of m)) s2 (wrap_err-calm (id_of m) s2))))),
          unfold ack in
              record {
                leaves = left3 ∙ (left2 ∙ left);
                handles = same3 ∙ (more ∙ ap (λ xs. xs ++ entry_of m ∷ []) same);
                acknowledges = acknowledged ∙ ap (λ xs. xs ++ id_of m ∷ []) (kept ∙ same_acks);
              },
        )

    Through-then :
        (s s1 s2 : S) (m m' : P) (ms : List P)
        → Through s s1 (map message_of (m' ∷ ms)) (m ∷ [])
        → Through s1 s2 [] (m' ∷ ms)
        → Through s s2 [] (m ∷ m' ∷ ms)
    Through-then s s1 s2 m m' ms a b = record {
      leaves = b.leaves;
      handles =
          b.handles
          ∙ (ap (λ xs. xs ++ map entry_of (m' ∷ ms)) a.handles
              ∙ append_assoc (handled s) (entry_of m ∷ []) (map entry_of (m' ∷ ms)));
      acknowledges =
          b.acknowledges
          ∙ (ap (λ xs. xs ++ map id_of (m' ∷ ms)) a.acknowledges
              ∙ append_assoc (acked s) (id_of m ∷ []) (map id_of (m' ∷ ms)));
    }

    -- In as many rounds as the queue has messages the worker gets through all of them, from when the
    -- breaker is closed, where each is handled without an error.
    pub start_drains :
        (times : List (Time × Time)) (l : Loop) (m : P) (ms : List P) (s : S)
        → length times ≡ length (m ∷ ms)
        → AllFrom l.breaker_until times
        → All Handles (m ∷ ms)
        → undelivered s ≡ map message_of (m ∷ ms)
        → (s' : S) × (start c (as_consumer client mq) follower_ids tl submit times l s
            ≡ (ok (settled l), s'))
          × Through s s' [] (m ∷ ms)
    unfolding start
    start_drains [] l m ms s same from hs q = absurd (omega (arith, same))
    start_drains ((now, now') ∷ []) l m [] s same (open_now, from) (h, hs) q =
        let (s1, ran, through) = round_drains now now' l m [] s open_now h q in
        (s1, rw ran refl, through)
    start_drains ((now, now') ∷ t ∷ times) l m [] s same from hs q = absurd (omega (arith, same))
    start_drains ((now, now') ∷ []) l m (m' ∷ ms) s same from hs q = absurd (omega (arith, same))
    start_drains ((now, now') ∷ t ∷ times) l m (m' ∷ ms) s same (open_now, from) (h, hs) q =
        let (s1, ran, through) = round_drains now now' l m (m' ∷ ms) s open_now h q in
        let (s2, rest, all) =
          start_drains (t ∷ times) (settled l) m' ms s1 (omega (arith, same)) from hs
            through.leaves in
        (s2, rw ran rest, Through-then s s1 s2 m m' ms through all)
