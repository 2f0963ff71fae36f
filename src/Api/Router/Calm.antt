-- ===== src/Api/Router/Calm.antt =====
-- The calls of internal/api/router.go, with the middleware, end without a panic over services that do.
use aita.Common.{
  ℤ, String, str_eq, Bool, true, false, Option, none, some, List, [], ◌∷◌, if◌then◌else◌, arith,
  ◌≡◌,
}
use aita.Errcode.{sentinel, session_not_found}
use aita.Exec.{Result, ok, err, panic, Attempt, returned, failed}
use aita.Exec.Calm.{
  Lands, Any, IsSome, Tried, Calm, Calm-pure, Calm-if, Calm-bind, Calm-bind_with, Calm-attempt,
  Calm-any,
}
use aita.Models.{Time}
use aita.Dto.Session.{AuthRecord}
use aita.Api.Auth.{
  Strings, AuthSessionService, Answer, aborted, next, refresh_when, admit, enter, token_or_missing,
  bearer_of, extract_bearer_token, auth_middleware,
}
use aita.Api.Request.{
  SignupRequest, LoginRequest, CreateTweetRequest, UpdateTweetRequest, validate_signup,
  validate_login, validate_create, validate_update,
}
use aita.Api.User.{UserService, SessionManager}
use aita.Api.Tweet.{TweetService}
use aita.Api.Follow.{FollowService}
use aita.Api.Router.{Call, is_protected, admitted, serve}
use aita.Api.Router.Handlers.{
  IsCalmUsers, IsCalmSessions, IsCalmTweets, IsCalmFollows, changes_follows, handle-Calm,
}

pub record IsCalmAuth {S : Type 0} (svc : AuthSessionService S) : Type 0 where
  pub validates : (token : String) → Calm IsSome (svc.validate token)
  pub refreshes :
      (expires_at created_at : Time) → Calm Any (svc.should_refresh expires_at created_at)
  pub starts : (token : String) → Calm Any (svc.refresh_async token)

module _ (lib : Strings) where
  token_or_missing-Lands : (token : String) → Lands Any (token_or_missing token)
  token_or_missing-Lands token = ground arith

  bearer_of-Lands : (parts : List String) → Lands Any (bearer_of lib parts)
  bearer_of-Lands [] = tt
  bearer_of-Lands (scheme ∷ []) = tt
  bearer_of-Lands (scheme ∷ rest ∷ []) = ground arith
  bearer_of-Lands (scheme ∷ rest ∷ more ∷ parts) = tt

  bearer-Lands : (header : String) → Lands Any (extract_bearer_token lib header)
  unfolding extract_bearer_token
  bearer-Lands header = by_test (str_eq header "")
    where
      by_test :
          (b : Bool)
          → Lands Any (
              if b
              then err (sentinel session_not_found)
              else bearer_of lib (lib.split_n header " " 2))
      by_test true = tt
      by_test false = bearer_of-Lands (lib.split_n header " " 2)

module _ {S : Type 0} (svc : AuthSessionService S) (calm : IsCalmAuth svc) where
  admit-Calm :
      (token : String) (a : Attempt (Option AuthRecord))
      → Tried IsSome a
      → Calm Any (admit svc token a)
  admit-Calm token (failed e) h = Calm-pure _ tt
  admit-Calm token (returned none) h = absurd h
  admit-Calm token (returned (some r)) h =
      Calm-bind _ _ (Calm-any _ (Calm-attempt _ (calm.refreshes r.expires_at r.created_at)))
        (λ should. Calm-bind _ _ (refreshed should) (λ done. Calm-pure _ tt))
    where
      refreshed : (a : Attempt Bool) → Calm Any (refresh_when svc token a)
      refreshed (returned true) = calm.starts token
      refreshed (returned false) = Calm-pure tt tt
      refreshed (failed e) = Calm-pure tt tt

  auth_middleware-Calm :
      (lib : Strings) (header : String) → Calm Any (auth_middleware svc lib header)
  unfolding auth_middleware
  auth_middleware-Calm lib header =
      by_token (extract_bearer_token lib header) (bearer-Lands lib header)
    where
      by_token : (r : Result String) → Lands Any r → Calm Any (enter svc r)
      by_token panic h = absurd h
      by_token (err e) h = Calm-pure _ tt
      by_token (ok token) h =
          Calm-bind_with (Tried IsSome) _ _ (Calm-attempt _ (calm.validates token))
            (admit-Calm token)

module _ {S : Type 0} (texts : aita.Api.Request.Strings) (parse : String → Option ℤ)
    (users : UserService S) (sessions : SessionManager S) (tweets : TweetService S)
    (follows : FollowService S) (svc : AuthSessionService S) (lib : Strings)
    (calm_users : IsCalmUsers users) (calm_sessions : IsCalmSessions sessions)
    (calm_tweets : IsCalmTweets tweets) (calm_follows : IsCalmFollows follows)
    (calm_auth : IsCalmAuth svc) where
  admitted-Calm :
      (call : Call) (a : Answer)
      → changes_follows call ≡ false
      → Calm Any (admitted texts parse users sessions tweets follows svc lib call a)
  admitted-Calm call (aborted status e) h = Calm-pure _ tt
  admitted-Calm call (next who) h =
      handle-Calm texts parse users sessions tweets follows calm_users calm_sessions calm_tweets
        calm_follows (some (some who)) call h

  pub serve-Calm :
      (header : String) (call : Call)
      → changes_follows call ≡ false
      → Calm Any (serve texts parse users sessions tweets follows svc lib header call)
  unfolding serve
  serve-Calm header call h =
      Calm-if (is_protected call) _ _
        (Calm-bind _ _ (auth_middleware-Calm svc calm_auth lib header)
          (λ a. admitted-Calm call a h))
        (handle-Calm texts parse users sessions tweets follows calm_users calm_sessions calm_tweets
          calm_follows none call h)
