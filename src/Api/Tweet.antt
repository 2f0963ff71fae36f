-- ===== src/Api/Tweet.antt =====
-- internal/api/tweet_handler.go. `auth` is the value that the context holds under `AuthPayloadKey`,
-- `id_str` the parameter `id` of the path, which `parse` reads.

use aita.Common.{ℤ, String, Bool, Option, none, some, if◌then◌else◌}
use aita.Exec.{Exec, pure, crash, lift}
use aita.Dto.Tweet.{TweetRecord, to_tweet_response}
use aita.Dto.Session.{AuthContext}
use aita.Api.Auth.{get_auth_context, get_id_param}
use aita.Api.Request.{
  Strings, CreateTweetRequest, UpdateTweetRequest, validate_create, validate_update,
}
use aita.Api.Response.{tweet_data, success, success_msg, Sent, Bound, or_refuse, with_body}

pub record TweetService (S : Type 0) : Type 0 where
  pub post_tweet : ℤ → String → Option String → Exec S TweetRecord
  pub fetch_tweet : ℤ → Exec S (Option TweetRecord)
  pub edit_tweet : String → ℤ → ℤ → Exec S (Option TweetRecord × Bool)
  pub remove_tweet : ℤ → ℤ → Exec S Unit

abbrev unchanged : String
unchanged = "内容に変更はありません"

abbrev removed : String
removed = "ツイートの削除成功"

module _ {S : Type 0} (lib : Strings) (parse : String → Option ℤ) (tweets : TweetService S) where
  abbrev pub shown : Option TweetRecord → Exec S Sent
  shown none = crash
  shown (some tweet) = pure (200, success (tweet_data (to_tweet_response tweet)))

  abbrev pub create_bound : AuthContext → CreateTweetRequest → Exec S Sent
  create_bound caller req = or_refuse (lift (validate_create lib req)) (λ valid.
      or_refuse (tweets.post_tweet caller.user_id valid.content valid.image_url)
        (λ tweet. pure (201, success (tweet_data (to_tweet_response tweet)))))

  -- Create
  unfoldable pub create : Option (Option AuthContext) → Bound CreateTweetRequest → Exec S Sent
  create auth body =
      or_refuse (lift (get_auth_context auth)) (λ caller. with_body body (create_bound caller))

  -- Get
  unfoldable pub get : String → Exec S Sent
  get id_str =
      or_refuse (lift (get_id_param parse id_str)) (λ id. or_refuse (tweets.fetch_tweet id) shown)

  abbrev pub edited : Option TweetRecord × Bool → Exec S Sent
  edited (tweet, is_changed) = if is_changed then shown tweet else pure (200, success_msg unchanged)

  abbrev pub update_bound : ℤ → AuthContext → UpdateTweetRequest → Exec S Sent
  update_bound id caller req =
      or_refuse (lift (validate_update lib req))
        (λ valid. or_refuse (tweets.edit_tweet valid.content id caller.user_id) edited)

  -- Update
  unfoldable pub update :
      Option (Option AuthContext) → String → Bound UpdateTweetRequest → Exec S Sent
  update auth id_str body = or_refuse (lift (get_id_param parse id_str)) (λ id.
      or_refuse (lift (get_auth_context auth)) (λ caller. with_body body (update_bound id caller)))

  -- Delete
  unfoldable pub delete : Option (Option AuthContext) → String → Exec S Sent
  delete auth id_str = or_refuse (lift (get_id_param parse id_str)) (λ id.
      or_refuse (lift (get_auth_context auth)) (λ caller.
        or_refuse (tweets.remove_tweet id caller.user_id)
          (λ done. pure (200, success_msg removed))))
