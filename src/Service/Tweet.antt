-- ===== src/Service/Tweet.antt =====
-- internal/service/tweet_service.go
pub mod Calm
pub mod Laws
use aita.Common.{
  ℕ, zero, ℤ, pos, is_nonpos, int_eq, leb_ℤ, String, str_eq, Bool, true, false, not, ◌||◌, Option,
  none, some, List, [], ◌∷◌, if◌then◌else◌,
}
use aita.Errcode.{invalid_user_id, required_field_missing, invalid_tweet_id, edit_time_expired}
use aita.Exec.{Exec, ◌>>=◌, ◌>>◌, pure, fail, crash, wrap_err}
use aita.Models.{Time}
use aita.Dto.Tweet.{TweetRecord, can_be_updated}
use aita.Dto.TimeLine.{action_create, action_delete}
use aita.Dto.User.{is_negative}
use aita.Pkg.Pool.{ignore}

pub record TweetRepository (S : Type 0) : Type 0 where
  pub create : TweetRecord → Exec S (Option TweetRecord)
  pub get : ℤ → Exec S (Option TweetRecord)
  pub update : String → ℤ → Exec S (Option TweetRecord)
  pub delete : ℤ → Exec S Unit
  pub multi_get : List ℤ → Exec S (List TweetRecord)
  pub get_tweets_by_author : ℤ → ℤ → ℤ → Exec S (List ℤ)

pub record MessageSender (S : Type 0) : Type 0 where
  pub async_to_mq : ℤ → ℤ → Time → String → Exec S Unit

-- A field is read through a pointer.
abbrev pub deref : {S A : Type 0} → Option A → Exec S A
deref none = crash
deref (some a) = pure a

-- `(tweet, nil)` and `(tweet, ErrForbidden)` of `ToMyTweet`.
pub data Ownership : Type 0 where
  mine : TweetRecord → Ownership
  others : TweetRecord → Ownership

-- The record that `PostTweet` hands to the repository.
abbrev pub initial_tweet : ℤ → String → Option String → TweetRecord
initial_tweet user_id content image_url = record {
  id = pos 0;
  user_id = user_id;
  content = content;
  image_url = image_url;
  created_at = 0;
  updated_at = 0;
  is_edited = false;
}

-- The page and the size that `GetMyTweets` asks for.
abbrev clamp_page : ℤ → ℤ
clamp_page page = if is_negative page then pos 0 else page

abbrev clamp_size : ℤ → ℤ
clamp_size size = if is_nonpos size || not (leb_ℤ size (pos 100)) then pos 20 else size

module _ {S : Type 0} (repo : TweetRepository S) (sender : MessageSender S) where
  -- PostTweet
  unfoldable pub post_tweet : ℤ → String → Option String → Exec S TweetRecord
  post_tweet user_id content image_url =
      if is_nonpos user_id
      then fail invalid_user_id
      else if str_eq content ""
      then fail required_field_missing
      else do
        created ← wrap_err (repo.create (initial_tweet user_id content image_url))
        saved ← deref created
        ignore (sender.async_to_mq saved.id saved.user_id saved.created_at action_create)
        pure saved

  -- FetchTweet
  unfoldable pub fetch_tweet : ℤ → Exec S (Option TweetRecord)
  fetch_tweet tweet_id =
      if is_nonpos tweet_id then fail invalid_tweet_id else wrap_err (repo.get tweet_id)

  -- ToMyTweet
  unfoldable pub to_my_tweet : ℤ → ℤ → Exec S Ownership
  to_my_tweet tweet_id user_id = if is_nonpos user_id then fail invalid_user_id else do
    fetched ← fetch_tweet tweet_id
    tweet ← deref fetched
    if not (int_eq tweet.user_id user_id) then pure (others tweet) else pure (mine tweet)

  -- EditTweet: the tweet, and whether it is said to have changed. `now` is the time that
  -- `CanBeUpdated` reads.
  abbrev edit_owned : Time → String → ℤ → Ownership → Exec S (Option TweetRecord × Bool)
  edit_owned now new_content tweet_id (others tweet) = pure (some tweet, true)
  edit_owned now new_content tweet_id (mine tweet) =
      if str_eq tweet.content new_content
      then pure (some tweet, false)
      else if not (can_be_updated now (some tweet))
      then fail edit_time_expired
      else do updated ← wrap_err (repo.update new_content tweet_id); pure (updated, true)

  unfoldable pub edit_tweet : Time → String → ℤ → ℤ → Exec S (Option TweetRecord × Bool)
  edit_tweet now new_content tweet_id user_id =
      if is_nonpos user_id
      then fail invalid_user_id
      else if str_eq new_content ""
      then fail required_field_missing
      else do owned ← to_my_tweet tweet_id user_id; edit_owned now new_content tweet_id owned

  abbrev remove_owned : ℤ → Ownership → Exec S Unit
  remove_owned tweet_id (others tweet) = pure tt
  remove_owned tweet_id (mine tweet) = do
    wrap_err (repo.delete tweet_id)
    ignore (sender.async_to_mq tweet.id tweet.user_id tweet.created_at action_delete)

  -- RemoveTweet
  unfoldable pub remove_tweet : ℤ → ℤ → Exec S Unit
  remove_tweet tweet_id user_id =
      if is_nonpos user_id
      then fail invalid_user_id
      else do owned ← to_my_tweet tweet_id user_id; remove_owned tweet_id owned

  -- GetTweets
  unfoldable pub get_tweets : List ℤ → Exec S (List TweetRecord)
  get_tweets [] = pure []
  get_tweets (id ∷ ids) = wrap_err (repo.multi_get (id ∷ ids))

  abbrev pub tweets_of : List ℤ → Exec S (List TweetRecord)
  tweets_of [] = pure []
  tweets_of (id ∷ ids) = wrap_err (repo.multi_get (id ∷ ids))

  -- GetMyTweets
  unfoldable pub get_my_tweets : ℤ → ℤ → ℤ → Exec S (List TweetRecord)
  get_my_tweets user_id page size = if is_nonpos user_id then fail invalid_user_id else do
    ids ← wrap_err (repo.get_tweets_by_author user_id (clamp_page page) (clamp_size size))
    tweets_of ids
