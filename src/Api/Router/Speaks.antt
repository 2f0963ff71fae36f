-- ===== src/Api/Router/Speaks.antt =====
-- Whatever a call of internal/api/router.go comes to, it is not an error: the handlers write every
-- error into an answer.
use aita.Common.{ℕ, ℤ, String, Bool, true, false, Option, none, some}
use aita.Errcode.{Sentinel, sentinel, filter_bind_error}
use aita.Exec.{Result, ok, err, panic, Exec, Attempt, returned, failed}
use aita.Exec.Speaks.{Speaks, Speaks-pure, Speaks-crash, Speaks-if, Speaks-attempt, Speaks-bind}
use aita.Dto.Session.{AuthRecord, AuthContext}
use aita.Dto.User.{UserRecord}
use aita.Dto.Tweet.{TweetRecord}
use aita.Dto.Follow.{FollowRecord}
use aita.Api.Auth.{
  Strings, AuthSessionService, Answer, aborted, next, refresh_when, admit, enter,
  extract_bearer_token, auth_middleware,
}
use aita.Api.Response.{Sent, Bound, bound, unbound, refused, after, or_refuse, filtered, with_body}
use aita.Api.User.{
  UserService, SessionManager, with_token, respond_with_token, sign_up, login, get_me, logout,
}
use aita.Api.Tweet.{TweetService, shown, edited, create, get, update, delete}
use aita.Api.Follow.{
  FollowService, FollowRequest, made, follow_bound, un_follow_bound, relation_to, relation_for,
  follow, un_follow, get_followers, get_followings, get_relation,
}
use aita.Api.Router.{
  Call, is_protected, handle, admitted, serve, signup_call, login_call, read_call, me_call,
  logout_call, post_call, edit_call, remove_call, follow_call, unfollow_call, status_call,
  followers_call, followings_call,
}

module _ {S : Type 0} where
  or_refuse-Speaks :
      {A : Type 0} (m : Exec S A) (f : A → Exec S Sent)
      → ((a : A) → Speaks (f a))
      → Speaks (or_refuse m f)
  unfolding or_refuse
  or_refuse-Speaks {A} m f sf = Speaks-bind _ _ (Speaks-attempt m) by_attempt
    where
      by_attempt : (a : Attempt A) → Speaks (after f a)
      by_attempt (returned a) = sf a
      by_attempt (failed e) = Speaks-pure (refused e)

  with_body-Speaks :
      {A : Type 0} (body : Bound A) (f : A → Exec S Sent)
      → ((a : A) → Speaks (f a))
      → Speaks (with_body body f)
  unfolding with_body
  with_body-Speaks (bound a) f sf = sf a
  with_body-Speaks (unbound e) f sf = by_filter (filter_bind_error (some e))
    where
      by_filter : (o : Option Sentinel) → Speaks (filtered {S = S} o)
      by_filter none = Speaks-crash
      by_filter (some c) = Speaks-pure (refused (sentinel c))

module _ {S : Type 0} (texts : aita.Api.Request.Strings) (parse : String → Option ℤ)
    (users : UserService S) (sessions : SessionManager S) (tweets : TweetService S)
    (follows : FollowService S) where
  respond-Speaks :
      (status : ℕ) (o : Option UserRecord)
      → Speaks (respond_with_token texts users sessions o status)
  unfolding respond_with_token
  respond-Speaks status none = Speaks-crash
  respond-Speaks status (some user) = or_refuse-Speaks _ _ by_auth
    where
      by_auth : (a : Option AuthRecord) → Speaks (with_token texts users sessions user status a)
      by_auth none = Speaks-crash
      by_auth (some a) = Speaks-pure _

  shown-Speaks : (t : Option TweetRecord) → Speaks (shown texts parse tweets t)
  shown-Speaks none = Speaks-crash
  shown-Speaks (some t) = Speaks-pure _

  edited-Speaks : (r : Option TweetRecord × Bool) → Speaks (edited texts parse tweets r)
  edited-Speaks (t, changed) = Speaks-if changed _ _ (shown-Speaks t) (Speaks-pure _)

  made-Speaks : (r : Option FollowRecord) → Speaks (made parse follows r)
  made-Speaks none = Speaks-crash
  made-Speaks (some r) = Speaks-pure _

  follow_bound-Speaks :
      (caller : AuthContext) (body : Bound FollowRequest)
      → Speaks (follow_bound parse follows caller body)
  follow_bound-Speaks caller (unbound e) = Speaks-pure _
  follow_bound-Speaks caller (bound req) = or_refuse-Speaks _ _ made-Speaks

  un_follow_bound-Speaks :
      (caller : AuthContext) (body : Bound FollowRequest)
      → Speaks (un_follow_bound parse follows caller body)
  un_follow_bound-Speaks caller (unbound e) = Speaks-pure _
  un_follow_bound-Speaks caller (bound req) = or_refuse-Speaks _ _ (λ done. Speaks-pure _)

  relation_to-Speaks :
      (caller : AuthContext) (a : Attempt ℤ) → Speaks (relation_to parse follows caller a)
  relation_to-Speaks caller (failed e) = Speaks-pure _
  relation_to-Speaks caller (returned id) = or_refuse-Speaks _ _ (λ r. Speaks-pure _)

  relation_for-Speaks :
      (id : String) (a : Attempt AuthContext) → Speaks (relation_for parse follows id a)
  relation_for-Speaks id (failed e) = Speaks-pure _
  relation_for-Speaks id (returned caller) =
      Speaks-bind _ _ (Speaks-attempt _) (relation_to-Speaks caller)

  handle-Speaks :
      (auth : Option (Option AuthContext)) (call : Call)
      → Speaks (handle texts parse users sessions tweets follows auth call)
  unfolding handle sign_up login get_me logout create get update delete follow un_follow
      get_followers get_followings get_relation
  handle-Speaks auth (signup_call body) =
      with_body-Speaks body _
        (λ req. or_refuse-Speaks _ _ (λ valid. or_refuse-Speaks _ _ (respond-Speaks 201)))
  handle-Speaks auth (login_call body) =
      with_body-Speaks body _
        (λ req. or_refuse-Speaks _ _ (λ valid. or_refuse-Speaks _ _ (respond-Speaks 200)))
  handle-Speaks auth (read_call id) = or_refuse-Speaks _ _ (λ i. or_refuse-Speaks _ _ shown-Speaks)
  handle-Speaks auth me_call =
      or_refuse-Speaks _ _ (λ who. or_refuse-Speaks _ _ (λ u. Speaks-pure _))
  handle-Speaks auth logout_call =
      or_refuse-Speaks _ _ (λ who. or_refuse-Speaks _ _ (λ u. Speaks-pure _))
  handle-Speaks auth (post_call body) = or_refuse-Speaks _ _ (λ who.
      with_body-Speaks body _
        (λ req. or_refuse-Speaks _ _ (λ valid. or_refuse-Speaks _ _ (λ t. Speaks-pure _))))
  handle-Speaks auth (edit_call id body) = or_refuse-Speaks _ _ (λ i. or_refuse-Speaks _ _ (λ who.
      with_body-Speaks body _
        (λ req. or_refuse-Speaks _ _ (λ valid. or_refuse-Speaks _ _ edited-Speaks))))
  handle-Speaks auth (remove_call id) =
      or_refuse-Speaks _ _
        (λ i. or_refuse-Speaks _ _ (λ who. or_refuse-Speaks _ _ (λ u. Speaks-pure _)))
  handle-Speaks auth (follow_call body) = or_refuse-Speaks _ _ (λ who. follow_bound-Speaks who body)
  handle-Speaks auth (unfollow_call body) =
      or_refuse-Speaks _ _ (λ who. un_follow_bound-Speaks who body)
  handle-Speaks auth (status_call id) = Speaks-bind _ _ (Speaks-attempt _) (relation_for-Speaks id)
  handle-Speaks auth (followers_call id) =
      or_refuse-Speaks _ _ (λ i. or_refuse-Speaks _ _ (λ u. Speaks-pure _))
  handle-Speaks auth (followings_call id) =
      or_refuse-Speaks _ _ (λ i. or_refuse-Speaks _ _ (λ u. Speaks-pure _))

  -- Where the goroutine of `RefreshAsync` is started without an error.
  module _ (svc : AuthSessionService S) (lib : Strings)
      (starts : (token : String) → Speaks (svc.refresh_async token)) where
    admit-Speaks : (token : String) (a : Attempt (Option AuthRecord)) → Speaks (admit svc token a)
    admit-Speaks token (failed e) = Speaks-pure _
    admit-Speaks token (returned none) = Speaks-crash
    admit-Speaks token (returned (some r)) =
        Speaks-bind _ _ (Speaks-attempt _)
          (λ should. Speaks-bind _ _ (refreshed should) (λ done. Speaks-pure _))
      where
        refreshed : (a : Attempt Bool) → Speaks (refresh_when svc token a)
        refreshed (returned true) = starts token
        refreshed (returned false) = Speaks-pure tt
        refreshed (failed e) = Speaks-pure tt

    enter-Speaks : (r : Result String) → Speaks (enter svc r)
    enter-Speaks panic = Speaks-crash
    enter-Speaks (err e) = Speaks-pure _
    enter-Speaks (ok token) = Speaks-bind _ _ (Speaks-attempt _) (admit-Speaks token)

    admitted-Speaks :
        (call : Call) (a : Answer)
        → Speaks (admitted texts parse users sessions tweets follows svc lib call a)
    admitted-Speaks call (aborted status e) = Speaks-pure _
    admitted-Speaks call (next who) = handle-Speaks (some (some who)) call

    pub serve-Speaks :
        (header : String) (call : Call)
        → Speaks (serve texts parse users sessions tweets follows svc lib header call)
    unfolding serve auth_middleware
    serve-Speaks header call =
        Speaks-if (is_protected call) _ _
          (Speaks-bind _ _ (enter-Speaks (extract_bearer_token lib header)) (admitted-Speaks call))
          (handle-Speaks none call)
