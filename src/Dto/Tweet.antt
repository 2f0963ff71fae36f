-- ===== src/Dto/Tweet.antt =====
-- internal/dto/tweet_dto.go, with the response of internal/pkg/app/response.go.
use aita.Common.{ℕ, ◌+◌, ℤ, String, Bool, false, Option, none, some, leb}
use aita.Models.{Time, Tweet}

-- 10 * time.Minute
abbrev pub editwindow : ℕ
editwindow = 600_000_000_000

pub record TweetRecord : Type 0 where
  pub id : ℤ
  pub user_id : ℤ
  pub content : String
  pub image_url : Option String
  pub created_at : Time
  pub updated_at : Time
  pub is_edited : Bool

pub record TweetResponse : Type 0 where
  pub id : ℤ
  pub user_id : ℤ
  pub content : String
  pub image_url : Option String
  pub created_at : Time
  pub updated_at : Time
  pub is_edited : Bool

-- ToTweetResponse
unfoldable pub to_tweet_response : TweetRecord → TweetResponse
to_tweet_response tr = record {
  id = tr.id;
  user_id = tr.user_id;
  content = tr.content;
  image_url = tr.image_url;
  created_at = tr.created_at;
  updated_at = tr.updated_at;
  is_edited = tr.is_edited;
}

-- CanBeUpdated at the time `now`: `now - created_at <= editwindow`, where a tweet from the future
-- has a negative age.
unfoldable pub can_be_updated : Time → Option TweetRecord → Bool
can_be_updated now none = false
can_be_updated now (some tr) = leb now (tr.created_at + editwindow)

-- `&models.Tweet{}`
abbrev pub zero_model : Tweet
zero_model = record {
  id = ℤ.pos 0;
  user_id = ℤ.pos 0;
  content = "";
  image_url = none;
  created_at = 0;
  updated_at = 0;
  is_edited = false;
}

-- `&TweetRecord{}`
abbrev pub zero_record : TweetRecord
zero_record = record {
  id = ℤ.pos 0;
  user_id = ℤ.pos 0;
  content = "";
  image_url = none;
  created_at = 0;
  updated_at = 0;
  is_edited = false;
}

-- ToModel
unfoldable pub to_model : Option TweetRecord → Tweet
to_model none = zero_model
to_model (some tr) = record {
  id = tr.id;
  user_id = tr.user_id;
  content = tr.content;
  image_url = tr.image_url;
  created_at = tr.created_at;
  updated_at = tr.updated_at;
  is_edited = tr.is_edited;
}

-- NewTweetRecord
unfoldable pub new_tweet_record : Option Tweet → TweetRecord
new_tweet_record none = zero_record
new_tweet_record (some tweet) = record {
  id = tweet.id;
  user_id = tweet.user_id;
  content = tweet.content;
  image_url = tweet.image_url;
  created_at = tweet.created_at;
  updated_at = tweet.updated_at;
  is_edited = tweet.is_edited;
}
