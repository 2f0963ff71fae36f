-- ===== src/Db/Tweet.antt =====
-- internal/db/tweet_store.go
pub mod Laws
use aita.Common.{
  ℕ, zero, ℤ, pos, String, str_eq, Bool, true, false, ◌&&◌, Option, none, some, List, [], ◌∷◌,
  length, ltb, ◌*ℤ◌, wrap_int, if◌then◌else◌,
}
use aita.Errcode.{
  Error, sentinel, wrapped, foreign, user_not_found, tweet_not_found, value_too_long,
}
use aita.Exec.{Result, ok, err, panic, Exec}
use aita.Models.{Time, Tweet}
use aita.Db.Driver.{
  PqError, DriverError, no_rows, pq, other, Reply, rows, failure, Statement,
  string_data_right_truncation, foreign_key_violation, tweet_user_fk,
}
use aita.Repository.Tweet.{TweetStore}

-- The columns that `GetTweetByTweetID` selects.
pub record SelectedTweet : Type 0 where
  pub user_id : ℤ
  pub content : String
  pub image_url : Option String
  pub created_at : Time
  pub updated_at : Time
  pub is_edited : Bool

-- The statements of the file, with their arguments. `delete_by_id` tells the rows affected;
-- `query_ids` gets the text of its statement.
pub record TweetTable (S : Type 0) : Type 0 where
  pub insert : ℤ → String → Option String → Statement S Tweet
  pub select_by_id : ℤ → Statement S SelectedTweet
  pub update_content : String → ℤ → Statement S Tweet
  pub delete_by_id : ℤ → Statement S ℕ
  pub select_any : List ℤ → Statement S (List Tweet)
  pub query_ids : String → ℤ → ℤ → ℤ → Statement S (List ℤ)

-- The other errors are wrapped by a text: no sentinel is in them.
abbrev pub driver_failure : Error
driver_failure = wrapped (foreign 2)

-- The statement of `GetTweetIDsByAuthor`, as it is spelled.
abbrev pub ids_by_author_query : String
ids_by_author_query = "SELCT id FROM tweets WHERE user_id = ? ORERDED BY id DESC LIMIT $2 OFFSET $3"

abbrev pub inserted : Reply Tweet → Result (Option Tweet)
inserted (rows t) = ok (some t)
inserted (failure no_rows) = err driver_failure
inserted (failure other) = err driver_failure
inserted (failure (pq e)) =
    if str_eq e.code foreign_key_violation && str_eq e.constraint tweet_user_fk
    then err (sentinel user_not_found)
    else if str_eq e.code string_data_right_truncation
    then err (sentinel value_too_long)
    else err driver_failure

abbrev pub selected : Reply SelectedTweet → Result (Option Tweet)
selected (rows t) = ok (
    some (record {
      id = pos 0;
      user_id = t.user_id;
      content = t.content;
      image_url = t.image_url;
      created_at = t.created_at;
      updated_at = t.updated_at;
      is_edited = t.is_edited;
    }))
selected (failure no_rows) = err (sentinel tweet_not_found)
selected (failure other) = err driver_failure
selected (failure (pq e)) = err driver_failure

abbrev pub updated : Reply Tweet → Result (Option Tweet)
updated (rows t) = ok (some t)
updated (failure no_rows) = err (sentinel tweet_not_found)
updated (failure other) = err driver_failure
updated (failure (pq e)) =
    if str_eq e.code string_data_right_truncation
    then err (sentinel value_too_long)
    else err driver_failure

abbrev pub deleted : Reply ℕ → Result (Unit {0})
deleted (rows zero) = err (sentinel tweet_not_found)
deleted (rows n) = ok tt
deleted (failure e) = err driver_failure

abbrev pub listed : {A : Type 0} → Reply A → Result A
listed (rows a) = ok a
listed (failure e) = err driver_failure

module _ {S : Type 0} (db : TweetTable S) where
  -- CreateTweet
  unfoldable pub create_tweet : Tweet → Exec S (Option Tweet)
  create_tweet tweet s =
      let (r, s') = db.insert tweet.user_id tweet.content tweet.image_url s in (inserted r, s')

  -- GetTweetByTweetID
  unfoldable pub get_tweet_by_tweet_id : ℤ → Exec S (Option Tweet)
  get_tweet_by_tweet_id tweet_id s = let (r, s') = db.select_by_id tweet_id s in (selected r, s')

  -- UpdateContent
  unfoldable pub update_content : String → ℤ → Exec S (Option Tweet)
  update_content new_content tweet_id s =
      let (r, s') = db.update_content new_content tweet_id s in (updated r, s')

  -- DeleteTweet
  unfoldable pub delete_tweet : ℤ → Exec S Unit
  delete_tweet tweet_id s = let (r, s') = db.delete_by_id tweet_id s in (deleted r, s')

  abbrev select_some : List ℤ → Exec S (List Tweet)
  select_some ids s = let (r, s') = db.select_any ids s in (listed r, s')

  -- GetTweetsByTweetIDs
  unfoldable pub get_tweets_by_tweet_ids : List ℤ → Exec S (List Tweet)
  get_tweets_by_tweet_ids [] s = (ok [], s)
  get_tweets_by_tweet_ids (id ∷ ids) s =
      if ltb 500 (length (id ∷ ids)) then (err (foreign 3), s) else select_some (id ∷ ids) s

  -- GetTweetIDsByAuthor: `offset` is `page * size`, which the repository asks for with a page that
  -- is not negative and a size that is positive.
  unfoldable pub get_tweet_ids_by_author : ℤ → ℤ → ℤ → Exec S (List ℤ)
  get_tweet_ids_by_author author_id page size s =
      let (r, s') = db.query_ids ids_by_author_query author_id size (wrap_int (page *ℤ size)) s in
      (listed r, s')

  -- The store as the interface of the repository.
  unfoldable pub as_store : TweetStore S
  as_store = record {
    create_tweet = create_tweet;
    get_tweet_by_tweet_id = get_tweet_by_tweet_id;
    update_content = update_content;
    delete_tweet = delete_tweet;
    get_tweets_by_tweet_ids = get_tweets_by_tweet_ids;
    get_tweet_ids_by_author = get_tweet_ids_by_author;
  }
