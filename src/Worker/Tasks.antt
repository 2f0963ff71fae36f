-- ===== src/Worker/Tasks.antt =====
-- What becomes of a message: internal/worker/fanout_worker.go with the producer of
-- internal/producer/fanout_producer.go.
use aita.Common.{ℤ, is_nonpos, String, ◌≡◌, ◌≢◌, true, false, List, ◌∷◌}
use aita.Exec.{ok, Exec}
use aita.Models.{Time}
use aita.Dto.TimeLine.{
  Codec, IsFaithful, Fits, to_map, new_fanout_task, from_map-to_map, from_map-to_map_refused,
  action_create, action_delete,
}
use aita.Worker.{MqConsumer, TimeLineHelper, handle_task, process_create, process_delete, recovered}

module _ {S : Type 0} (c : Codec) (mq : MqConsumer S) (follower_ids : ℤ → Exec S (List ℤ))
    (tl : TimeLineHelper S) (submit : Exec S Unit) where
  -- A posted tweet that was announced through the queue is fanned out to the list of its author's
  -- followers, with the post's time in whole seconds: for an author with followers, where Go reads
  -- a printed int64 back and the pool takes the task.
  pub handle_task-create :
      (msg_id : String) (tweet_id author_id : ℤ) (created_at : Time) (s s' s'' : S) (f : ℤ)
      (fs : List ℤ)
      → IsFaithful c
      → Fits c tweet_id author_id created_at
      → msg_id ≢ ""
      → is_nonpos tweet_id ≡ false
      → is_nonpos author_id ≡ false
      → follower_ids author_id s ≡ (ok (f ∷ fs), s')
      → submit s' ≡ (ok tt, s'')
      → handle_task c mq follower_ids tl submit msg_id
          (to_map c (new_fanout_task tweet_id author_id created_at action_create))
          s
        ≡ recovered (tl.fanout tweet_id (f ∷ fs) (c.from_unix (c.unix created_at))) s''
  unfolding handle_task
  handle_task-create msg_id tweet_id author_id created_at s s' s'' f fs h fits named t a followers
        runs =
      rw (from_map-to_map c msg_id tweet_id author_id created_at action_create h fits named t a)
        (unfold process_create new_fanout_task in rw (followers) (rw runs))

  -- The removal of a tweet that was announced through the queue is fanned out to the list of its
  -- author's followers: for an author with followers, where Go reads a printed int64 back and the
  -- pool takes the task.
  pub handle_task-delete :
      (msg_id : String) (tweet_id author_id : ℤ) (created_at : Time) (s s' s'' : S) (f : ℤ)
      (fs : List ℤ)
      → IsFaithful c
      → Fits c tweet_id author_id created_at
      → msg_id ≢ ""
      → is_nonpos tweet_id ≡ false
      → is_nonpos author_id ≡ false
      → follower_ids author_id s ≡ (ok (f ∷ fs), s')
      → submit s' ≡ (ok tt, s'')
      → handle_task c mq follower_ids tl submit msg_id
          (to_map c (new_fanout_task tweet_id author_id created_at action_delete))
          s
        ≡ recovered (tl.forward tweet_id (f ∷ fs)) s''
  unfolding handle_task
  handle_task-delete msg_id tweet_id author_id created_at s s' s'' f fs h fits named t a followers
        runs =
      rw (from_map-to_map c msg_id tweet_id author_id created_at action_delete h fits named t a)
        (unfold process_delete new_fanout_task in rw (followers) (rw runs))

  -- An announcement whose tweet ID is not above 0 is discarded as a success, whatever its action,
  -- where Go reads a printed int64 back.
  pub handle_task_discards :
      (msg_id : String) (tweet_id author_id : ℤ) (created_at : Time) (action : String) (s : S)
      → IsFaithful c
      → Fits c tweet_id author_id created_at
      → msg_id ≢ ""
      → is_nonpos tweet_id ≡ true
      → handle_task c mq follower_ids tl submit msg_id
          (to_map c (new_fanout_task tweet_id author_id created_at action))
          s
        ≡ (ok tt, s)
  unfolding handle_task
  handle_task_discards msg_id tweet_id author_id created_at action s h fits named t =
      rw (from_map-to_map_refused c msg_id tweet_id author_id created_at action h fits named t)
