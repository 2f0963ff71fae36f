-- ===== src/Api/Router/Handlers.antt =====
-- The handlers of internal/api end without a panic over services that do.
use aita.Common.{ℕ, ℤ, String, Bool, true, false, Option, none, some, arith, ◌≡◌, ◌≢◌}
use aita.Exec.{Attempt, returned, failed}
use aita.Exec.Calm.{
  Lands, Any, IsSome, Calm, Calm-pure, Calm-lift, Calm-if, Calm-bind, Calm-attempt, Calm-any,
}
use aita.Dto.Session.{AuthRecord, AuthContext}
use aita.Dto.User.{UserRecord}
use aita.Dto.Tweet.{TweetRecord}
use aita.Api.Auth.{get_auth_context, get_id_param}
use aita.Api.Request.{
  SignupRequest, LoginRequest, CreateTweetRequest, UpdateTweetRequest, validate_signup,
  validate_login, validate_create, validate_update,
}
use aita.Api.Response.Calm.{or_refuse-Calm, or_refuse-lift, with_body-Calm}
use aita.Api.User.{
  UserService, SessionManager, with_token, respond_with_token, sign_up, login, get_me, logout,
}
use aita.Api.Tweet.{TweetService, shown, edited, create, get, update, delete}
use aita.Api.Follow.{
  FollowService, relation_to, relation_for, get_followers, get_followings, get_relation,
}
use aita.Api.Router.{
  Call, handle, signup_call, login_call, read_call, me_call, logout_call, post_call, edit_call,
  remove_call, follow_call, unfollow_call, status_call, followers_call, followings_call,
}

pub record IsCalmUsers {S : Type 0} (users : UserService S) : Type 0 where
  pub registers : (name email password : String) → Calm IsSome (users.register name email password)
  pub logs_in : (email password : String) → Calm IsSome (users.login email password)
  pub accounts : (id : ℤ) → Calm Any (users.to_my_account id)

pub record IsCalmSessions {S : Type 0} (sessions : SessionManager S) : Type 0 where
  pub issues : (id : ℤ) → Calm IsSome (sessions.issue id)
  pub revokes : (id : ℤ) (token : String) → Calm Any (sessions.revoke id token)

pub record IsCalmTweets {S : Type 0} (tweets : TweetService S) : Type 0 where
  pub posts :
      (id : ℤ) (content : String) (url : Option String)
      → Calm Any (tweets.post_tweet id content url)
  pub fetches : (id : ℤ) → Calm IsSome (tweets.fetch_tweet id)
  pub edits :
      (content : String) (id user_id : ℤ)
      → Calm (λ r. IsSome r.0) (tweets.edit_tweet content id user_id)
  pub removes : (id user_id : ℤ) → Calm Any (tweets.remove_tweet id user_id)

pub record IsCalmFollows {S : Type 0} (follows : FollowService S) : Type 0 where
  pub followers : (id : ℤ) → Calm Any (follows.get_followers id)
  pub followings : (id : ℤ) → Calm Any (follows.get_followings id)
  pub relations : (a b : ℤ) → Calm Any (follows.get_relation a b)

auth-Lands : (auth : Option (Option AuthContext)) → Lands Any (get_auth_context auth)
unfolding get_auth_context
auth-Lands none = tt
auth-Lands (some none) = tt
auth-Lands (some (some who)) = tt

id-Lands : (parse : String → Option ℤ) (id : String) → Lands Any (get_id_param parse id)
unfolding get_id_param
id-Lands parse id = ground arith

-- The calls that open a transaction.
abbrev pub changes_follows : Call → Bool
changes_follows (follow_call body) = true
changes_follows (unfollow_call body) = true
changes_follows _ = false

true-ne-false : true ≢ false
true-ne-false h = cc

module _ {S : Type 0} (texts : aita.Api.Request.Strings) (parse : String → Option ℤ)
    (users : UserService S) (sessions : SessionManager S) (tweets : TweetService S)
    (follows : FollowService S) (calm_users : IsCalmUsers users)
    (calm_sessions : IsCalmSessions sessions) (calm_tweets : IsCalmTweets tweets)
    (calm_follows : IsCalmFollows follows) where
  respond-Calm :
      (status : ℕ) (o : Option UserRecord)
      → IsSome o
      → Calm Any (respond_with_token texts users sessions o status)
  unfolding respond_with_token
  respond-Calm status none h = absurd h
  respond-Calm status (some user) h =
      or_refuse-Calm IsSome _ _ (calm_sessions.issues user.id) by_auth
    where
      by_auth :
          (a : Option AuthRecord)
          → IsSome a
          → Calm Any (with_token texts users sessions user status a)
      by_auth none h = absurd h
      by_auth (some a) h = Calm-pure _ tt

  signup-Lands : (r : SignupRequest) → Lands Any (validate_signup texts r)
  unfolding validate_signup
  signup-Lands r = ground arith

  login-Lands : (r : LoginRequest) → Lands Any (validate_login texts r)
  unfolding validate_login
  login-Lands r = ground arith

  create-Lands : (r : CreateTweetRequest) → Lands Any (validate_create texts r)
  unfolding validate_create
  create-Lands r = ground arith

  update-Lands : (r : UpdateTweetRequest) → Lands Any (validate_update texts r)
  unfolding validate_update
  update-Lands r = ground arith

  shown-Calm : (t : Option TweetRecord) → IsSome t → Calm Any (shown texts parse tweets t)
  shown-Calm none h = absurd h
  shown-Calm (some t) h = Calm-pure _ tt

  edited-Calm :
      (r : Option TweetRecord × Bool) → IsSome r.0 → Calm Any (edited texts parse tweets r)
  edited-Calm (t, changed) h = Calm-if changed _ _ (shown-Calm t h) (Calm-pure _ tt)

  relation_to-Calm :
      (caller : AuthContext) (a : Attempt ℤ) → Calm Any (relation_to parse follows caller a)
  relation_to-Calm caller (failed e) = Calm-pure _ tt
  relation_to-Calm caller (returned id) =
      or_refuse-Calm Any _ _ (calm_follows.relations caller.user_id id) (λ r h. Calm-pure _ tt)

  relation_for-Calm :
      (id : String) (a : Attempt AuthContext) → Calm Any (relation_for parse follows id a)
  relation_for-Calm id (failed e) = Calm-pure _ tt
  relation_for-Calm id (returned caller) =
      Calm-bind _ _ (Calm-any _ (Calm-attempt _ (Calm-lift _ (id-Lands parse id))))
        (relation_to-Calm caller)

  -- Every handler but those of the two calls.
  pub handle-Calm :
      (auth : Option (Option AuthContext)) (call : Call)
      → changes_follows call ≡ false
      → Calm Any (handle texts parse users sessions tweets follows auth call)
  unfolding handle sign_up login get_me logout create get update delete get_followers get_followings
      get_relation
  handle-Calm auth (signup_call body) h = with_body-Calm body _ (λ req.
      or_refuse-lift _ _ (signup-Lands req)
        (λ valid. or_refuse-Calm IsSome _ _ (calm_users.registers _ _ _) (respond-Calm 201)))
  handle-Calm auth (login_call body) h = with_body-Calm body _ (λ req.
      or_refuse-lift _ _ (login-Lands req)
        (λ valid. or_refuse-Calm IsSome _ _ (calm_users.logs_in _ _) (respond-Calm 200)))
  handle-Calm auth (read_call id) h =
      or_refuse-lift _ _ (id-Lands parse id)
        (λ i. or_refuse-Calm IsSome _ _ (calm_tweets.fetches i) shown-Calm)
  handle-Calm auth me_call h = or_refuse-lift _ _ (auth-Lands auth) (λ caller.
      or_refuse-Calm Any _ _ (calm_users.accounts caller.user_id) (λ u t. Calm-pure _ tt))
  handle-Calm auth logout_call h = or_refuse-lift _ _ (auth-Lands auth) (λ caller.
      or_refuse-Calm Any _ _ (calm_sessions.revokes caller.user_id caller.token)
        (λ u t. Calm-pure _ tt))
  handle-Calm auth (post_call body) h = or_refuse-lift _ _ (auth-Lands auth) (λ caller.
      with_body-Calm body _ (λ req.
        or_refuse-lift _ _ (create-Lands req)
          (λ valid. or_refuse-Calm Any _ _ (calm_tweets.posts _ _ _) (λ u t. Calm-pure _ tt))))
  handle-Calm auth (edit_call id body) h = or_refuse-lift _ _ (id-Lands parse id) (λ i.
      or_refuse-lift _ _ (auth-Lands auth) (λ caller. with_body-Calm body _ (λ req.
        or_refuse-lift _ _ (update-Lands req)
          (λ valid. or_refuse-Calm (λ r. IsSome r.0) _ _ (calm_tweets.edits _ _ _) edited-Calm))))
  handle-Calm auth (remove_call id) h = or_refuse-lift _ _ (id-Lands parse id) (λ i.
      or_refuse-lift _ _ (auth-Lands auth)
        (λ caller. or_refuse-Calm Any _ _ (calm_tweets.removes _ _) (λ u t. Calm-pure _ tt)))
  handle-Calm auth (follow_call body) h = absurd (true-ne-false h)
  handle-Calm auth (unfollow_call body) h = absurd (true-ne-false h)
  handle-Calm auth (status_call id) h =
      Calm-bind _ _ (Calm-any _ (Calm-attempt _ (Calm-lift _ (auth-Lands auth))))
        (relation_for-Calm id)
  handle-Calm auth (followers_call id) h =
      or_refuse-lift _ _ (id-Lands parse id)
        (λ i. or_refuse-Calm Any _ _ (calm_follows.followers i) (λ u t. Calm-pure _ tt))
  handle-Calm auth (followings_call id) h =
      or_refuse-lift _ _ (id-Lands parse id)
        (λ i. or_refuse-Calm Any _ _ (calm_follows.followings i) (λ u t. Calm-pure _ tt))
