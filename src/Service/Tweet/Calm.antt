-- ===== src/Service/Tweet/Calm.antt =====
-- internal/service/tweet_service.go ends without a panic over a repository and a producer that do.
use aita.Common.{ℤ, String, true, false, not, is_nonpos, int_eq, str_eq, Option, some}
use aita.Errcode.{invalid_user_id, required_field_missing, invalid_tweet_id, edit_time_expired}
use aita.Exec.Calm.{
  Any, IsSome, Calm, Calm-pure, Calm-fail, Calm-if, Calm-bind, Calm-bind_with, Calm-wrap_err,
}
use aita.Models.{Time}
use aita.Dto.Tweet.{TweetRecord, can_be_updated}
use aita.Pkg.Calm.{Calm-ignore}
use aita.Service.User.Calm.{deref-Calm}
use aita.Service.Tweet.{
  TweetRepository, MessageSender, Ownership, mine, others, post_tweet, fetch_tweet, to_my_tweet,
  edit_owned, edit_tweet, remove_owned, remove_tweet,
}

pub record IsCalmTweetRepository {S : Type 0} (repo : TweetRepository S) : Type 0 where
  pub creates : (r : TweetRecord) → Calm IsSome (repo.create r)
  pub finds : (id : ℤ) → Calm IsSome (repo.get id)
  pub updates : (content : String) (id : ℤ) → Calm IsSome (repo.update content id)
  pub deletes : (id : ℤ) → Calm Any (repo.delete id)

pub record IsCalmSender {S : Type 0} (sender : MessageSender S) : Type 0 where
  pub sends :
      (id author : ℤ) (at : Time) (action : String)
      → Calm Any (sender.async_to_mq id author at action)

module _ {S : Type 0} (repo : TweetRepository S) (sender : MessageSender S)
    (calm : IsCalmTweetRepository repo) (calm_sender : IsCalmSender sender) where
  pub post_tweet-Calm :
      (id : ℤ) (content : String) (url : Option String)
      → Calm Any (post_tweet repo sender id content url)
  unfolding post_tweet
  post_tweet-Calm id content url = Calm-if (is_nonpos id) _ _ (Calm-fail invalid_user_id) (
      Calm-if (str_eq content "") _ _ (Calm-fail required_field_missing) (
        Calm-bind_with IsSome _ _ (Calm-wrap_err _ (calm.creates _)) (λ created h.
          Calm-bind _ _ (deref-Calm created h) (λ saved.
            Calm-bind _ _ (Calm-ignore _ (calm_sender.sends _ _ _ _))
              (λ done. Calm-pure saved tt)))))

  pub fetch_tweet-Calm : (id : ℤ) → Calm IsSome (fetch_tweet repo sender id)
  unfolding fetch_tweet
  fetch_tweet-Calm id =
      Calm-if (is_nonpos id) _ _ (Calm-fail invalid_tweet_id) (Calm-wrap_err _ (calm.finds id))

  to_my_tweet-Calm : (id user_id : ℤ) → Calm Any (to_my_tweet repo sender id user_id)
  unfolding to_my_tweet
  to_my_tweet-Calm id user_id = Calm-if (is_nonpos user_id) _ _ (Calm-fail invalid_user_id) (
      Calm-bind_with IsSome _ _ (fetch_tweet-Calm id) (λ fetched h.
        Calm-bind _ _ (deref-Calm fetched h) (λ tweet.
          Calm-if (not (int_eq tweet.user_id user_id)) _ _ (Calm-pure (others tweet) tt)
            (Calm-pure (mine tweet) tt))))

  -- What an edit answers has a tweet.
  pub edit_tweet-Calm :
      (now : Time) (content : String) (id user_id : ℤ)
      → Calm (λ r. IsSome r.0) (edit_tweet repo sender now content id user_id)
  unfolding edit_tweet
  edit_tweet-Calm now content id user_id =
      Calm-if (is_nonpos user_id) _ _ (Calm-fail invalid_user_id) (
        Calm-if (str_eq content "") _ _ (Calm-fail required_field_missing)
          (Calm-bind _ _ (to_my_tweet-Calm id user_id) by_owner))
    where
      by_owner : (o : Ownership) → Calm (λ r. IsSome r.0) (edit_owned repo sender now content id o)
      by_owner (others tweet) = Calm-pure (some tweet, true) tt
      by_owner (mine tweet) =
          Calm-if (str_eq tweet.content content) _ _ (Calm-pure (some tweet, false) tt) (
            Calm-if (not (can_be_updated now (some tweet))) _ _ (Calm-fail edit_time_expired) (
              Calm-bind_with IsSome _ _ (Calm-wrap_err _ (calm.updates content id))
                (λ updated h. Calm-pure (updated, true) h)))

  pub remove_tweet-Calm : (id user_id : ℤ) → Calm Any (remove_tweet repo sender id user_id)
  unfolding remove_tweet
  remove_tweet-Calm id user_id =
      Calm-if (is_nonpos user_id) _ _ (Calm-fail invalid_user_id)
        (Calm-bind _ _ (to_my_tweet-Calm id user_id) by_owner)
    where
      by_owner : (o : Ownership) → Calm Any (remove_owned repo sender id o)
      by_owner (others tweet) = Calm-pure tt tt
      by_owner (mine tweet) =
          Calm-bind _ _ (Calm-wrap_err _ (calm.deletes id))
            (λ done. Calm-ignore _ (calm_sender.sends _ _ _ _))
