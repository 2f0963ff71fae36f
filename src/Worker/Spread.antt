-- ===== src/Worker/Spread.antt =====
-- How posts reach the timelines: a queue of announcements that internal/producer/fanout_producer.go
-- has written, through internal/pkg/messagequeue/redis_mq.go and internal/worker/fanout_worker.go.
use aita.Common.{
  ℤ, String, is_nonpos, length, ◌≡◌, ◌≢◌, refl, ap, ◌∙◌, false, List, [], ◌∷◌, ◌++◌, map, All,
}
use aita.Exec.{ok, Exec}
use aita.Models.{Time}
use aita.Dto.TimeLine.{Codec, IsFaithful, Fits, to_map, new_fanout_task, action_create}
use aita.Pkg.MessageQueue.{Streams, RedisMq, as_consumer}
use aita.Worker.{Message, TimeLineHelper, Loop, recovered, start}
use aita.Worker.Breaker.{AllFrom}
use aita.Worker.Drain.{IsQueue, Handles, settled, start_drains}
use aita.Worker.Tasks.{handle_task-create}

-- A tweet that was posted, with the ID of the message that announces it.
pub record Post : Type 0 where
  pub message_id : String
  pub tweet_id : ℤ
  pub author_id : ℤ
  pub created_at : Time

-- A call of `Fanout`: the tweet, the timelines and the time.
abbrev pub Push : Type 0
Push = ℤ × List ℤ × Time

module _ (c : Codec) (audience : ℤ → ℤ × List ℤ) where
  abbrev pub announced : Post → Message
  announced p = record {
    id = p.message_id;
    values = to_map c (new_fanout_task p.tweet_id p.author_id p.created_at action_create);
  }

  abbrev pub followers : ℤ → List ℤ
  followers author = (audience author).0 ∷ (audience author).1

  -- The post as it is to be spread, to all followers of its author, with its time in whole seconds.
  abbrev pub due : Post → Push
  due p = (p.tweet_id, followers p.author_id, c.from_unix (c.unix p.created_at))

  -- What the producer announces.
  pub record IsPost (p : Post) : Type 0 where
    pub fits : Fits c p.tweet_id p.author_id p.created_at
    pub named : p.message_id ≢ ""
    pub tweeted : is_nonpos p.tweet_id ≡ false
    pub authored : is_nonpos p.author_id ≡ false

  module _ {S : Type 0} (undelivered : S → List Message) (spread : S → List Push)
      (acked : S → List String) where
    pub record Same (s s' : S) : Type 0 where
      pub left : undelivered s' ≡ undelivered s
      pub pushed : spread s' ≡ spread s
      pub acks : acked s' ≡ acked s

    -- What the handler calls: the followers of an author are found, the pool takes the task, and a
    -- call of `Fanout` succeeds and is one more of them; none of the three touches the group.
    pub record IsReaching (follower_ids : ℤ → Exec S (List ℤ)) (tl : TimeLineHelper S)
        (submit : Exec S Unit) : Type 0 where
      pub finds :
          (author : ℤ) (s : S)
          → (s' : S) × (follower_ids author s ≡ (ok (followers author), s')) × Same s s'
      pub submits : (s : S) → (s' : S) × (submit s ≡ (ok tt, s')) × Same s s'
      pub fans :
          (tweet : ℤ) (ids : List ℤ) (at : Time) (s : S)
          → (s' : S) × (tl.fanout tweet ids at s ≡ (ok tt, s'))
            × (undelivered s' ≡ undelivered s)
            × (spread s' ≡ spread s ++ (tweet, ids, at) ∷ [])
            × (acked s' ≡ acked s)

    module _ (faithful : IsFaithful c) (client : Streams S) (mq : RedisMq)
        (law : IsQueue announced due undelivered spread acked client mq)
        (follower_ids : ℤ → Exec S (List ℤ)) (tl : TimeLineHelper S) (submit : Exec S Unit)
        (reaching : IsReaching follower_ids tl submit) where
      recovered-ok : (m : Exec S Unit) (s s' : S) → m s ≡ (ok tt, s') → recovered m s ≡ (ok tt, s')
      recovered-ok m s s' h = rw h refl

      IsPost-Handles :
          (p : Post)
          → IsPost p
          → Handles announced due undelivered spread acked client mq law c follower_ids tl submit p
      IsPost-Handles p is = record {
        works = λ s.
            let (s1, listed, same1) = reaching.finds p.author_id s in
            let (s2, runs, same2) = reaching.submits s1 in
            let (s3, fanned, left, pushed, acks) =
              reaching.fans p.tweet_id (followers p.author_id) (c.from_unix (c.unix p.created_at))
                s2 in
            (
              s3,
              handle_task-create c (as_consumer client mq) follower_ids tl submit p.message_id
                    p.tweet_id p.author_id p.created_at s s1 s2 (audience p.author_id).0
                    (audience p.author_id).1 faithful is.fits is.named is.tweeted is.authored listed
                    runs
                  ∙ recovered-ok
                      (tl.fanout p.tweet_id (followers p.author_id)
                        (c.from_unix (c.unix p.created_at)))
                      s2 s3 fanned,
              left ∙ (same2.left ∙ same1.left),
              pushed ∙ ap (λ xs. xs ++ due p ∷ []) (same2.pushed ∙ same1.pushed),
              acks ∙ (same2.acks ∙ same1.acks),
            );
      }

      posts-Handles :
          (ps : List Post)
          → All IsPost ps
          → All
              (Handles announced due undelivered spread acked client mq law c follower_ids tl
                submit)
              ps
      posts-Handles [] hs = tt
      posts-Handles (p ∷ ps) (h, hs) = (IsPost-Handles p h, posts-Handles ps hs)

      -- In as many rounds as the queue has announcements of posts, one or more, the worker spreads
      -- all of them: `Fanout` is called for each post with its tweet, all followers of its author
      -- and its time in whole seconds, in the order of the queue and once each; every message is
      -- acknowledged, in that order, none is left, and the failures are counted from 0 again. The
      -- rounds begin when the breaker is closed, authors have followers, Go reads a printed int64
      -- back, finding followers, the pool and `Fanout` succeed, and the group of the stream is
      -- given its messages one by one; IDs are above 0 and those of messages not empty.
      pub start_spreads :
          (times : List (Time × Time)) (l : Loop) (p : Post) (ps : List Post) (s : S)
          → length times ≡ length (p ∷ ps)
          → AllFrom l.breaker_until times
          → All IsPost (p ∷ ps)
          → undelivered s ≡ map announced (p ∷ ps)
          → (s' : S) × (start c (as_consumer client mq) follower_ids tl submit times l s
              ≡ (ok (settled l), s'))
            × (undelivered s' ≡ [])
            × (spread s' ≡ spread s ++ map due (p ∷ ps))
            × (acked s' ≡ acked s ++ map (λ q. q.message_id) (p ∷ ps))
      start_spreads times l p ps s same from posts q =
          let (s', ran, through) =
            start_drains announced due undelivered spread acked client mq law c follower_ids tl
              submit times l p ps s same from (posts-Handles (p ∷ ps) posts) q in
          (s', ran, through.leaves, through.handles, through.acknowledges)
