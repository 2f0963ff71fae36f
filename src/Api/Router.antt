-- ===== src/Api/Router.antt =====
-- internal/api/router.go. A call is a route of the table with what its handler reads from the
-- request; gin finds the route by its method and path. `/health` answers a constant.

pub mod Answers
pub mod Handlers
pub mod Calm
pub mod Speaks
pub mod Callers
use aita.Common.{ℤ, String, Bool, true, false, Option, none, some, if◌then◌else◌}
use aita.Exec.{Result, ok, err, panic, Exec, ◌>>=◌, pure}
use aita.Dto.Session.{AuthContext}
use aita.Api.Auth.{Strings, AuthSessionService, Answer, aborted, next, auth_middleware}
use aita.Api.Request.{SignupRequest, LoginRequest, CreateTweetRequest, UpdateTweetRequest}
use aita.Api.Response.{fail_with, Sent, Bound}
use aita.Api.User.{UserService, SessionManager, sign_up, login, get_me, logout}
use aita.Api.Tweet.{TweetService, create, get, update, delete}
use aita.Api.Follow.{
  FollowService, FollowRequest, follow, un_follow, get_followers, get_followings, get_relation,
}

pub data Call : Type 0 where
  signup_call : Bound SignupRequest → Call
  login_call : Bound LoginRequest → Call
  read_call : String → Call
  me_call : Call
  logout_call : Call
  post_call : Bound CreateTweetRequest → Call
  edit_call : String → Bound UpdateTweetRequest → Call
  remove_call : String → Call
  follow_call : Bound FollowRequest → Call
  unfollow_call : Bound FollowRequest → Call
  status_call : String → Call
  followers_call : String → Call
  followings_call : String → Call

-- The method and the pattern under which the call's handler is registered.
unfoldable pub pattern_of : Call → String × String
pattern_of (signup_call body) = ("POST", "/api/v1/signup")
pattern_of (login_call body) = ("POST", "/api/v1/login")
pattern_of (read_call id) = ("GET", "/api/v1/tweets/:id")
pattern_of me_call = ("GET", "/api/v1/me")
pattern_of logout_call = ("POST", "/api/v1/logout")
pattern_of (post_call body) = ("POST", "/api/v1/tweets")
pattern_of (edit_call id body) = ("PATCH", "/api/v1/tweets/:id")
pattern_of (remove_call id) = ("DELETE", "/api/v1/tweets/:id")
pattern_of (follow_call body) = ("POST", "/api/v1/relation/follow")
pattern_of (unfollow_call body) = ("POST", "/api/v1/relation/unfollow")
pattern_of (status_call id) = ("GET", "/api/v1/relation/status/:id")
pattern_of (followers_call id) = ("GET", "/api/v1/users/:id/followers")
pattern_of (followings_call id) = ("GET", "/api/v1/users/:id/followings")

-- The routes of the group `protected`, which uses the middleware.
unfoldable pub is_protected : Call → Bool
is_protected (signup_call body) = false
is_protected (login_call body) = false
is_protected (read_call id) = false
is_protected _ = true

module _ {S : Type 0} (texts : aita.Api.Request.Strings) (parse : String → Option ℤ)
    (users : UserService S) (sessions : SessionManager S) (tweets : TweetService S)
    (follows : FollowService S) where
  -- The handler, with the value that the context holds under `AuthPayloadKey`.
  unfoldable pub handle : Option (Option AuthContext) → Call → Exec S Sent
  handle auth (signup_call body) = sign_up texts users sessions body
  handle auth (login_call body) = login texts users sessions body
  handle auth (read_call id) = get texts parse tweets id
  handle auth me_call = get_me texts users sessions auth
  handle auth logout_call = logout texts users sessions auth
  handle auth (post_call body) = create texts parse tweets auth body
  handle auth (edit_call id body) = update texts parse tweets auth id body
  handle auth (remove_call id) = delete texts parse tweets auth id
  handle auth (follow_call body) = follow parse follows auth body
  handle auth (unfollow_call body) = un_follow parse follows auth body
  handle auth (status_call id) = get_relation parse follows auth id
  handle auth (followers_call id) = get_followers parse follows id
  handle auth (followings_call id) = get_followings parse follows id

  module _ (svc : AuthSessionService S) (lib : Strings) where
    abbrev pub admitted : Call → Answer → Exec S Sent
    admitted call (aborted status e) = pure (status, fail_with e)
    admitted call (next who) = handle (some (some who)) call

    -- SetupRouter: what a call with an `Authorization` header is answered.
    unfoldable pub serve : String → Call → Exec S Sent
    unfolding handle auth_middleware is_protected
    serve header call =
        if is_protected call
        then (do answer ← auth_middleware svc lib header; admitted call answer)
        else handle none call
