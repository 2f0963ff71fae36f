-- ===== src/Worker/Pending.antt =====
-- What becomes of a message whose handling fails: internal/worker/fanout_worker.go over
-- internal/pkg/messagequeue/redis_mq.go. `Pending s id` says that the message `id` was given to a
-- consumer of the group and is not acknowledged.
use aita.Common.{
  ℤ, String, Bool, true, false, ltb, if◌then◌else◌, ◌≡◌, ◌≢◌, refl, subst, none, some, List, [],
  ◌∷◌,
}
use aita.Errcode.{Error}
use aita.Exec.{Result, ok, err, panic, Exec, ◌>>=◌, pure, raise, Attempt, returned, failed, attempt}
use aita.Exec.Keeps.{
  Keeps, Keeps-pure, Keeps-attempt, Keeps-bind, Keeps-if, Keeps-continue, keeps_rules,
}
use aita.Models.{Time}
use aita.Dto.TimeLine.{Codec, Values, FanoutTask, from_map}
use aita.Pkg.MessageQueue.{Streams, RedisMq, block, dequeue, ack, as_consumer, is_nil}
use aita.Worker.{
  Message, TimeLineHelper, Loop, recovered, process_create, process_delete, fan_to, dispatch,
  settle, receive, handle_task, round, start,
}

module _ {S : Type 0} (Pending : S → String → Type 0) where
  -- What a consumer group of Redis does: what it gives on `>` was given to nobody before and is
  -- pending from then on, and a pending message is so until it is acknowledged itself.
  pub record IsGroup (client : Streams S) (mq : RedisMq) : Type 0 where
    pub gives :
        (s s' : S) (m : Message) (ms : List Message) (entries : List (List Message))
        → client.x_read_group mq.group mq.consumer mq.stream ">" 1 block s
          ≡ (ok ((m ∷ ms) ∷ entries), s')
        → Pending s' m.id
    pub fresh :
        (id : String) (s s' : S) (m : Message) (ms : List Message) (entries : List (List Message))
        → client.x_read_group mq.group mq.consumer mq.stream ">" 1 block s
          ≡ (ok ((m ∷ ms) ∷ entries), s')
        → Pending s id
        → m.id ≢ id
    pub reads :
        (id : String)
        → Keeps (λ s. Pending s id) (client.x_read_group mq.group mq.consumer mq.stream ">" 1 block)
    pub acks :
        (id other : String)
        → other ≢ id
        → Keeps (λ s. Pending s id) (client.x_ack mq.stream mq.group other)

  -- What the handler calls does not touch the group.
  pub record IsApart (follower_ids : ℤ → Exec S (List ℤ)) (tl : TimeLineHelper S)
      (submit : Exec S Unit) : Type 0 where
    pub follows : (id : String) (author : ℤ) → Keeps (λ s. Pending s id) (follower_ids author)
    pub fans :
        (id : String) (tweet : ℤ) (ids : List ℤ) (at : Time)
        → Keeps (λ s. Pending s id) (tl.fanout tweet ids at)
    pub forwards :
        (id : String) (tweet : ℤ) (ids : List ℤ) → Keeps (λ s. Pending s id) (tl.forward tweet ids)
    pub submits : (id : String) → Keeps (λ s. Pending s id) submit

  module _ (client : Streams S) (mq : RedisMq) (law : IsGroup client mq) (c : Codec)
      (follower_ids : ℤ → Exec S (List ℤ)) (tl : TimeLineHelper S) (submit : Exec S Unit)
      (apart : IsApart follower_ids tl submit) where
    recovered-Keeps :
        (id : String) (m : Exec S Unit)
        → Keeps (λ s. Pending s id) m
        → Keeps (λ s. Pending s id) (recovered m)
    recovered-Keeps id m k = record { at = k.at }

    fan_to-Keeps :
        (id : String) (spread : List ℤ → Exec S Unit)
        → ((ids : List ℤ) → Keeps (λ s. Pending s id) (spread ids))
        → (ids : List ℤ)
        → Keeps
            (λ s. Pending s id)
            (fan_to c (as_consumer client mq) follower_ids tl submit spread ids)
    fan_to-Keeps id spread k [] = Keeps-pure tt
    fan_to-Keeps id spread k (f ∷ ids) =
        let kept = apart.submits id in
        let spreads = recovered-Keeps id (spread (f ∷ ids)) (k (f ∷ ids)) in search keeps_rules

    dispatch-Keeps :
        (id : String) (task : Result FanoutTask)
        → Keeps (λ s. Pending s id) (dispatch c (as_consumer client mq) follower_ids tl submit task)
    unfolding process_create process_delete
    dispatch-Keeps id (err e) = Keeps-pure tt
    dispatch-Keeps id panic = record { at = λ s h. h }
    dispatch-Keeps id (ok task) =
        let read = apart.follows id task.author_id in
        let fanned =
          fan_to-Keeps id (λ ids. tl.fanout task.tweet_id ids task.created_at)
            (λ ids. apart.fans id task.tweet_id ids task.created_at) in
        let recalled =
          fan_to-Keeps id (λ ids. tl.forward task.tweet_id ids)
            (λ ids. apart.forwards id task.tweet_id ids) in
        search keeps_rules depth 6

    handle_task-Keeps :
        (id msg_id : String) (values : Values)
        → Keeps
            (λ s. Pending s id)
            (handle_task c (as_consumer client mq) follower_ids tl submit msg_id values)
    unfolding handle_task
    handle_task-Keeps id msg_id values = dispatch-Keeps id (from_map c msg_id values)

    failed-Keeps :
        (id : String) (now' : Time) (l : Loop) (m : Message) (e : Error)
        → Keeps
            (λ s. Pending s id)
            (settle c (as_consumer client mq) follower_ids tl submit now' l m (failed e))
    failed-Keeps id now' l m e = search keeps_rules depth 4

    settle-Keeps :
        (id : String) (now' : Time) (l : Loop) (m : Message) (outcome : Attempt (Unit {0}))
        → m.id ≢ id
        → Keeps
            (λ s. Pending s id)
            (settle c (as_consumer client mq) follower_ids tl submit now' l m outcome)
    unfolding ack as_consumer
    settle-Keeps id now' l m (returned x) other =
        let acked = law.acks id m.id other in search keeps_rules depth 6
    settle-Keeps id now' l m (failed e) other = failed-Keeps id now' l m e

    receive-Keeps :
        (id : String) (now' : Time) (l : Loop) (m : Message)
        → m.id ≢ id
        → Keeps
            (λ s. Pending s id)
            (receive c (as_consumer client mq) follower_ids tl submit now' l (returned (some m)))
    receive-Keeps id now' l m other =
        let ran = handle_task-Keeps id m.id m.values in
        Keeps-bind
          (attempt (handle_task c (as_consumer client mq) follower_ids tl submit m.id m.values))
          (settle c (as_consumer client mq) follower_ids tl submit now' l m) (Keeps-attempt _ ran)
          (λ outcome. settle-Keeps id now' l m outcome other)

    nothing-Keeps :
        (id : String) (now' : Time) (l : Loop) (b : Bool) (e : Error)
        → Keeps
            (λ s. Pending s id)
            (do
              got ← attempt (if b then pure none else raise e)
              receive c (as_consumer client mq) follower_ids tl submit now' l got)
    nothing-Keeps id now' l true e = record { at = λ s h. h }
    nothing-Keeps id now' l false e = record { at = λ s h. h }

    -- What is pending stays so through a call of the group and what the loop does with its reply.
    given-Keeps :
        (id : String) (now' : Time) (l : Loop) (r : Result (List (List Message))) (s s' : S)
        → client.x_read_group mq.group mq.consumer mq.stream ">" 1 block s ≡ (r, s')
        → Pending s id
        → Pending s' id
        → Pending
            ((do
              got ← attempt (dequeue client mq)
              receive c (as_consumer client mq) follower_ids tl submit now' l got)
              s).1
            id
    unfolding dequeue
    given-Keeps id now' l panic s s' got held kept = rw got kept
    given-Keeps id now' l (err e) s s' got held kept =
        rw got ((nothing-Keeps id now' l (is_nil e) e).at s' kept)
    given-Keeps id now' l (ok []) s s' got held kept = rw got kept
    given-Keeps id now' l (ok ([] ∷ entries)) s s' got held kept = rw got kept
    given-Keeps id now' l (ok ((m ∷ ms) ∷ entries)) s s' got held kept =
        rw got ((receive-Keeps id now' l m (law.fresh id s s' m ms entries got held)).at s' kept)

    round-Keeps :
        (id : String) (now now' : Time) (l : Loop)
        → Keeps
            (λ s. Pending s id)
            (round c (as_consumer client mq) follower_ids tl submit now now' l)
    unfolding round as_consumer
    round-Keeps id now now' l =
        Keeps-if (ltb now l.breaker_until) (pure l) _ (Keeps-pure l) (record {
          at = λ s h.
              let got = client.x_read_group mq.group mq.consumer mq.stream ">" 1 block s in
              given-Keeps id now' l got.0 s got.1 refl h ((law.reads id).at s h);
        })

    -- What is pending stays so however long the worker runs.
    start-Keeps :
        (id : String) (times : List (Time × Time)) (l : Loop)
        → Keeps (λ s. Pending s id) (start c (as_consumer client mq) follower_ids tl submit times l)
    unfolding start
    start-Keeps id [] l = Keeps-pure l
    start-Keeps id ((now, now') ∷ times) l =
        Keeps-bind (round c (as_consumer client mq) follower_ids tl submit now now' l)
          (start c (as_consumer client mq) follower_ids tl submit times) (round-Keeps id now now' l)
          (start-Keeps id times)

    round_forgets :
        (now now' : Time) (l : Loop) (m : Message) (e : Error) (s s1 s2 : S)
        → ltb now l.breaker_until ≡ false
        → client.x_read_group mq.group mq.consumer mq.stream ">" 1 block s
          ≡ (ok ((m ∷ []) ∷ []), s1)
        → handle_task c (as_consumer client mq) follower_ids tl submit m.id m.values s1
          ≡ (err e, s2)
        → Pending (round c (as_consumer client mq) follower_ids tl submit now now' l s).1 m.id
    unfolding round dequeue as_consumer
    round_forgets now now' l m e s s1 s2 runs got fails =
        let held = law.gives s s1 m [] [] got in
        let kept = (handle_task-Keeps m.id m.id m.values).at s1 held in
        rw runs (
          rw got (
            rw fails
              ((failed-Keeps m.id now' l m e).at s2 (subst (λ r. Pending r.1 m.id) fails kept))))

    -- A message whose handling fails, in a round that the breaker lets run, is pending in its group
    -- after every sequence of rounds that begins with that one: where the group gives only what it
    -- gave to nobody before, a pending message is so until it is acknowledged itself, and what the
    -- handler calls does not touch the group.
    pub start_forgets :
        (times : List (Time × Time)) (now now' : Time) (l : Loop) (m : Message) (e : Error)
        (s s1 s2 : S)
        → ltb now l.breaker_until ≡ false
        → client.x_read_group mq.group mq.consumer mq.stream ">" 1 block s
          ≡ (ok ((m ∷ []) ∷ []), s1)
        → handle_task c (as_consumer client mq) follower_ids tl submit m.id m.values s1
          ≡ (err e, s2)
        → Pending
            (start c (as_consumer client mq) follower_ids tl submit ((now, now') ∷ times) l s).1
            m.id
    unfolding start
    start_forgets times now now' l m e s s1 s2 runs got fails =
        let ran = round c (as_consumer client mq) follower_ids tl submit now now' l s in
        Keeps-continue ran.0 (start c (as_consumer client mq) follower_ids tl submit times) ran.1
          (start-Keeps m.id times) (round_forgets now now' l m e s s1 s2 runs got fails)
