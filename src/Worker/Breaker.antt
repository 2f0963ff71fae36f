-- ===== src/Worker/Breaker.antt =====
-- The circuit breaker of internal/worker/fanout_worker.go.
use aita.Common.{
  ◌+◌, ◌≤◌, ◌<◌, ◌≡◌, refl, ℤ, List, [], ◌∷◌, Bool, true, false, ◌++◌, length, ltb, lt→ltb,
  le→ltb_false, le→leb, lt→leb_false, arith, Option, none, some, if◌then◌else◌,
}
use aita.Errcode.{Error}
use aita.Exec.{ok, err, Exec, ◌>>=◌, pure, Attempt, returned, failed, attempt, >>=-eq-ok}
use aita.Models.{Time}
use aita.Dto.TimeLine.{Codec}
use aita.Worker.{
  MqConsumer, TimeLineHelper, Message, Loop, breaker_pause, round, start, settle, receive,
  handle_task,
}

-- Every round of the list begins before the time.
abbrev pub AllBefore : Time → List (Time × Time) → Type 0
AllBefore t [] = Unit
AllBefore t ((now, now') ∷ times) = (now < t) × AllBefore t times

-- Every round of the list begins at the time or later.
abbrev pub AllFrom : Time → List (Time × Time) → Type 0
AllFrom t [] = Unit
AllFrom t ((now, now') ∷ times) = (t ≤ now) × AllFrom t times

module _ {S : Type 0} (c : Codec) (mq : MqConsumer S) (follower_ids : ℤ → Exec S (List ℤ))
    (tl : TimeLineHelper S) (submit : Exec S Unit) where
  -- While the breaker is open the worker takes no message and touches nothing, for however many
  -- rounds.
  pub start_open :
      (times : List (Time × Time)) (l : Loop) (s : S)
      → AllBefore l.breaker_until times
      → start c mq follower_ids tl submit times l s ≡ (ok l, s)
  unfolding start round
  start_open [] l s before = refl
  start_open ((now, now') ∷ times) l s before =
      rw (lt→ltb now l.breaker_until before.0) (start_open times l s before.1)

  settle-lt :
      (now' : Time) (l : Loop) (message : Message) (o : Attempt (Unit {0})) (s s' : S) (l' : Loop)
      → l.fail_count < 20
      → settle c mq follower_ids tl submit now' l message o s ≡ (ok l', s')
      → l'.fail_count < 20
  settle-lt now' l message (returned x) s s' l' h e = ground arith
  settle-lt now' l message (failed x) s s' l' h e = ground arith

  receive-lt :
      (now' : Time) (l : Loop) (got : Attempt (Option Message)) (s s' : S) (l' : Loop)
      → l.fail_count < 20
      → receive c mq follower_ids tl submit now' l got s ≡ (ok l', s')
      → l'.fail_count < 20
  receive-lt now' l (failed x) s s' l' h e = ground arith
  receive-lt now' l (returned none) s s' l' h e = ground arith
  receive-lt now' l (returned (some message)) s s' l' h e =
      let (o, t, p, q) =
        >>=-eq-ok (attempt (handle_task c mq follower_ids tl submit message.id message.values))
          (settle c mq follower_ids tl submit now' l message) s e in
      settle-lt now' l message o t s' l' h q

  round_body-lt :
      (open_now : Bool) (now' : Time) (l : Loop) (s s' : S) (l' : Loop)
      → l.fail_count < 20
      → (if open_now
            then pure l
            else do got ← attempt mq.dequeue; receive c mq follower_ids tl submit now' l got)
          s
        ≡ (ok l', s')
      → l'.fail_count < 20
  round_body-lt true now' l s s' l' h e = ground arith
  round_body-lt false now' l s s' l' h e =
      let (got, t, p, q) =
        >>=-eq-ok (attempt mq.dequeue) (receive c mq follower_ids tl submit now' l) s e in
      receive-lt now' l got t s' l' h q

  round-lt :
      (now now' : Time) (l : Loop) (s s' : S) (l' : Loop)
      → l.fail_count < 20
      → round c mq follower_ids tl submit now now' l s ≡ (ok l', s')
      → l'.fail_count < 20
  unfolding round
  round-lt now now' l s s' l' h e = round_body-lt (ltb now l.breaker_until) now' l s s' l' h e

  -- The count of consecutive failures never reaches 20 between rounds.
  pub start-lt :
      (times : List (Time × Time)) (l : Loop) (s s' : S) (l' : Loop)
      → l.fail_count < 20
      → start c mq follower_ids tl submit times l s ≡ (ok l', s')
      → l'.fail_count < 20
  unfolding start
  start-lt [] l s s' l' h e = ground arith
  start-lt ((now, now') ∷ times) l s s' l' h e =
      let (m, t, p, q) =
        >>=-eq-ok (round c mq follower_ids tl submit now now' l)
          (start c mq follower_ids tl submit times) s e in
      start-lt times m t s' l' (round-lt now now' l s t m h p) q

  -- Every round that takes a message fails at handling it.
  pub record AlwaysFails : Type 0 where
    pub message : S → Message
    pub cause : S → Error
    pub taken : S → S
    pub handled : S → S
    pub delivers : (s : S) → mq.dequeue s ≡ (ok (some (message s)), taken s)
    pub fails :
        (s : S)
        → handle_task c mq follower_ids tl submit (message s).id (message s).values (taken s)
          ≡ (err (cause s), handled s)

  module _ (bad : AlwaysFails) where
    round_fails :
        (now now' : Time) (l : Loop) (s : S)
        → l.breaker_until ≤ now
        → round c mq follower_ids tl submit now now' l s
          ≡ settle c mq follower_ids tl submit now' l
              (bad.message s)
              (failed (bad.cause s))
              (bad.handled s)
    unfolding round
    round_fails now now' l s closed =
        rw (le→ltb_false l.breaker_until now closed, bad.delivers s) (rw (bad.fails s))

    -- From n failures on, the rounds that bring the count to 20 in a row open the breaker: the
    -- worker stops for 30 seconds from the last failure, and counts from 0.
    pub start_trips :
        (times : List (Time × Time)) (now now' : Time) (l : Loop) (s : S)
        → l.fail_count + length times + 1 ≡ 20
        → AllFrom l.breaker_until times
        → l.breaker_until ≤ now
        → (start c mq follower_ids tl submit (times ++ (now, now') ∷ []) l s).0
          ≡ ok (record { fail_count = 0; breaker_until = now' + breaker_pause })
    unfolding start
    start_trips [] now now' l s full from closed =
        rw (round_fails now now' l s closed) (rw (le→leb 20 (l.fail_count + 1) (omega arith)))
    start_trips ((t, t') ∷ times) now now' l s full from closed = rw (round_fails t t' l s from.0) (
        rw (lt→leb_false 20 (l.fail_count + 1) (omega arith)) (
          start_trips times now now' (record l { fail_count = l.fail_count + 1 }) (bad.handled s)
            (omega arith) from.1 closed))
