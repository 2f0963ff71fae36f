-- ===== src/Tests/Drains.antt =====
-- The worker's loop over a queue of two announcements, of tweets 3 and 4 of user 7, whom users 8 and
-- 9 follow.
use aita.Common.{ℤ, pos, String, str_eq-false, ◌≡◌, refl, List, [], ◌∷◌, ◌++◌, map, arith}
use aita.Exec.{ok, Exec}
use aita.Pkg.MessageQueue.{Streams, RedisMq, as_consumer}
use aita.Worker.{Message, TimeLineHelper, start}
use aita.Worker.Drain.{IsQueue}
use aita.Worker.Spread.{Post, Push, announced, due, followers, IsPost, IsReaching, start_spreads}
use aita.Tests.Messages.{codec, faithful}

-- What is left, what was spread, and which messages were acknowledged.
abbrev Queue : Type 0
Queue = List Message × List Push × List String

abbrev given : List Message → List (List Message)
given [] = []
given (m ∷ ms) = (m ∷ []) ∷ []

abbrev rest : List Message → List Message
rest [] = []
rest (m ∷ ms) = ms

abbrev streams : Streams Queue
streams = record {
  text_of = λ e. "";
  x_group_create_mk_stream = λ stream group id s. (ok tt, s);
  x_add = λ stream limit values s. (ok tt, s);
  x_read_group = λ group consumer stream id n block s. (ok (given s.0), (rest s.0, s.1, s.2));
  x_ack = λ stream group id s. (ok tt, (s.0, s.1, s.2 ++ id ∷ []));
}

abbrev mq : RedisMq
mq = record { stream = "tweets"; group = "fanout"; consumer = "one" }

abbrev audience : ℤ → ℤ × List ℤ
audience author = (pos 8, pos 9 ∷ [])

queue :
    IsQueue
      (announced codec audience)
      (due codec audience)
      (λ s. s.0)
      (λ s. s.1)
      (λ s. s.2)
      streams
      mq
queue = record {
  reads = λ s m ms h.
      ((ms, s.1, s.2), λ i. (ok (given (h i)), (rest (h i), s.1, s.2)), refl, refl, refl);
  acks = λ id s. (λ e. cc, refl, refl, refl);
}

abbrev follower_ids : ℤ → Exec Queue (List ℤ)
follower_ids author s = (ok (followers codec audience author), s)

abbrev tl : TimeLineHelper Queue
tl = record {
  fanout = λ id users at s. (ok tt, (s.0, s.1 ++ (id, users, at) ∷ [], s.2));
  forward = λ id users s. (ok tt, s);
}

abbrev submit : Exec Queue Unit
submit s = (ok tt, s)

reaching : IsReaching codec audience (λ s. s.0) (λ s. s.1) (λ s. s.2) follower_ids tl submit
reaching = record {
  finds = λ author s. (s, refl, record { left = refl; pushed = refl; acks = refl });
  submits = λ s. (s, refl, record { left = refl; pushed = refl; acks = refl });
  fans = λ tweet ids at s. ((s.0, s.1 ++ (tweet, ids, at) ∷ [], s.2), refl, refl, refl, refl);
}

abbrev first : Post
first = record { message_id = "1-0"; tweet_id = pos 3; author_id = pos 7; created_at = 5 }

abbrev second : Post
second = record { message_id = "2-0"; tweet_id = pos 4; author_id = pos 7; created_at = 6 }

first-IsPost : IsPost codec audience first
first-IsPost = record {
  fits = (omega arith, omega arith, omega arith);
  named = str_eq-false "1-0" "" refl;
  tweeted = refl;
  authored = refl;
}

second-IsPost : IsPost codec audience second
second-IsPost = record {
  fits = (omega arith, omega arith, omega arith);
  named = str_eq-false "2-0" "" refl;
  tweeted = refl;
  authored = refl;
}

abbrev announcements : List Message
announcements = map (announced codec audience) (first ∷ second ∷ [])

start_spreads_example :
    (s' : Queue) × (start codec
        (as_consumer streams mq)
        follower_ids
        tl
        submit
        ((11, 12) ∷ (13, 14) ∷ [])
        (record { fail_count = 3; breaker_until = 10 })
        (announcements, [], [])
      ≡ (ok (record { fail_count = 0; breaker_until = 10 }), s'))
    × (s'.0 ≡ [])
    × (s'.1 ≡ [] ++ map (due codec audience) (first ∷ second ∷ []))
    × (s'.2 ≡ [] ++ "1-0" ∷ "2-0" ∷ [])
start_spreads_example =
    start_spreads codec audience (λ s. s.0) (λ s. s.1) (λ s. s.2) faithful streams mq queue
      follower_ids tl submit reaching ((11, 12) ∷ (13, 14) ∷ [])
      (record { fail_count = 3; breaker_until = 10 }) first (second ∷ []) (announcements, [], [])
      refl (omega arith, (omega arith, tt)) (first-IsPost, (second-IsPost, tt)) refl
