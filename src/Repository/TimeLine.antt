-- ===== src/Repository/TimeLine.antt =====
-- internal/repository/timeline_repository.go
pub mod Pages
use aita.Common.{ℤ, pos, negsuc, ◌+ℤ◌, ◌*ℤ◌, wrap_int, some, List, [], ◌∷◌, map}
use aita.Exec.{Exec, pure}
use aita.Models.{Time, Tweet}
use aita.Dto.Tweet.{TweetRecord, to_model}
use aita.Service.TimeLine.{TimeLineRepository}

pub record TimeLineCache (S : Type 0) : Type 0 where
  pub push_batch : ℤ → List ℤ → Time → Exec S Unit
  pub find_range : ℤ → ℤ → ℤ → Exec S (List ℤ)
  pub recall_tweet : ℤ → List ℤ → Exec S Unit
  pub backfill_ids : ℤ → List Tweet → Exec S Unit

module _ {S : Type 0} (cache : TimeLineCache S) where
  -- Push
  unfoldable pub push : ℤ → List ℤ → Time → Exec S Unit
  push tweet_id user_ids created_at = cache.push_batch tweet_id user_ids created_at

  -- GetHomeTimeLine: `start` is `page * size`, `stop` is `start + size - 1`, in 64 bits.
  unfoldable pub get_home_time_line : ℤ → ℤ → ℤ → Exec S (List ℤ)
  get_home_time_line user_id page size =
      let start = wrap_int (page *ℤ size) in
      cache.find_range user_id start (wrap_int (wrap_int (start +ℤ size) +ℤ negsuc 0))

  -- Recall
  unfoldable pub recall : ℤ → List ℤ → Exec S Unit
  recall tweet_id user_ids = cache.recall_tweet tweet_id user_ids

  -- Backfill
  unfoldable pub backfill : ℤ → List TweetRecord → Exec S Unit
  backfill user_id [] = pure tt
  backfill user_id (r ∷ records) =
      cache.backfill_ids user_id (map (λ rec. to_model (some rec)) (r ∷ records))

  -- The repository as the interface of the service.
  unfoldable pub as_interface : TimeLineRepository S
  as_interface = record {
    push = push;
    get_home_time_line = get_home_time_line;
    recall = recall;
    backfill = backfill;
  }
