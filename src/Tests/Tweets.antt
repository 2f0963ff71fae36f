-- ===== src/Tests/Tweets.antt =====
-- The tweet service, with a repository that holds at most one tweet.
use aita.Common.{ℕ, ◌≤◌, pos, String, ◌≡◌, refl, false, Option, none, some, [], arith}
use aita.Errcode.{sentinel, foreign, tweet_not_found}
use aita.Exec.{Result, ok, err, ◌>>=◌, wrap_err}
use aita.Dto.Tweet.{TweetRecord}
use aita.Service.Tweet.{
  TweetRepository, MessageSender, initial_tweet, edit_tweet, get_my_tweets, tweets_of,
}
use aita.Service.Tweet.Laws.{edit_tweet_frame, get_my_tweets_bounds}

abbrev Held : Type 0
Held = Option TweetRecord

abbrev fetched : Held → Result (Option TweetRecord)
fetched none = err (sentinel tweet_not_found)
fetched (some t) = ok (some t)

abbrev rewritten : String → Held → Held
rewritten c none = none
rewritten c (some t) = some (record t { content = c })

abbrev repo : TweetRepository Held
repo = record {
  create = λ r s. (ok (some (record r { id = pos 3 })), some (record r { id = pos 3 }));
  get = λ id s. (fetched s, s);
  update = λ c id s. (ok (rewritten c s), rewritten c s);
  delete = λ id s. (ok tt, none);
  multi_get = λ ids s. (ok [], s);
  get_tweets_by_author = λ id page size s. (ok [], s);
}

abbrev sender : MessageSender Held
sender = record { async_to_mq = λ id author at action s. (err (foreign 9), s) }

abbrev tweet : TweetRecord
tweet = record {
  id = pos 3;
  user_id = pos 7;
  content = "hello";
  image_url = none;
  created_at = 1000;
  updated_at = 1000;
  is_edited = false;
}

edit_tweet_frame_example :
    (edit_tweet repo sender 900_000_000_000 "too late" (pos 3) (pos 7) (some tweet)).1 ≡ some tweet
edit_tweet_frame_example =
    edit_tweet_frame repo sender (pos 3) (pos 7) (some tweet) (some tweet) tweet refl refl refl
      900_000_000_000 "too late" refl (λ may. omega (arith, may.in_window))

abbrev posted : TweetRecord
posted = record (initial_tweet (pos 7) "hello" none) { id = pos 3 }

get_my_tweets_bounds_example :
    (p z : ℕ) × (get_my_tweets repo sender (pos 7) (pos 2) (pos 500) ≡ (do
      ids ← wrap_err (repo.get_tweets_by_author (pos 7) (pos p) (pos z))
      tweets_of repo sender ids))
    × (1 ≤ z)
    × (z ≤ 100)
    × ((n : ℕ) → pos 500 ≡ pos n → 1 ≤ n → n ≤ 100 → z ≡ n)
get_my_tweets_bounds_example = get_my_tweets_bounds repo sender (pos 7) (pos 2) (pos 500) refl
