-- ===== src/Api/Router/Answers.antt =====
-- The status and the envelope of an answer agree: internal/api over internal/pkg/app/response.go and
-- internal/errcode.
use aita.Common.{
  ℕ, ◌≤◌, ℤ, String, ◌≡◌, refl, inl, inr, Bool, true, false, Option, none, some, ◌⊎◌, arith,
  if◌then◌else◌,
}
use aita.Api.Response.Status.{
  IsConsistent, succeeds, status-le, refused-IsConsistent, ok-IsConsistent, created-IsConsistent,
  msg-IsConsistent, refused-Fine, or_refuse-Fine, with_body-Fine,
}
use aita.Exec.{Result, ok, err, panic, >>=-eq-ok, ◌>>=◌, Attempt, returned, failed, attempt}
use aita.Exec.Gives.{Gives, Gives-pure, Gives-if, Gives-crash, Gives-bind}
use aita.Dto.Session.{AuthRecord, AuthContext}
use aita.Dto.User.{UserRecord}
use aita.Dto.Tweet.{TweetRecord}
use aita.Dto.Follow.{FollowRecord}
use aita.Api.Request.{SignupRequest, LoginRequest, CreateTweetRequest, UpdateTweetRequest}
use aita.Api.Auth.{
  Strings, AuthSessionService, Answer, aborted, next, abort, refresh_when, admit, enter,
  extract_bearer_token, auth_middleware,
}
use aita.Api.Response.{Sent, Bound, bound, unbound, success, raw_bind_error}
use aita.Api.User.{
  UserService, SessionManager, with_token, respond_with_token, sign_up, login, get_me, logout,
}
use aita.Api.Tweet.{TweetService, shown, edited, create, get, update, delete}
use aita.Api.Follow.{
  FollowService, FollowRequest, made, follow_bound, un_follow_bound, relation_to, relation_for,
  follow, un_follow, get_followers, get_followings, get_relation,
}
use aita.Api.Router.{
  Call, is_protected, handle, admitted, serve, signup_call, login_call, read_call, me_call,
  logout_call, post_call, edit_call, remove_call, follow_call, unfollow_call, status_call,
  followers_call, followings_call,
}

module _ {S : Type 0} (texts : aita.Api.Request.Strings) (parse : String → Option ℤ)
    (users : UserService S) (sessions : SessionManager S) (tweets : TweetService S)
    (follows : FollowService S) where
  respond-Fine :
      (user : Option UserRecord) (status : ℕ)
      → (status ≡ 200) ⊎ (status ≡ 201)
      → Gives IsConsistent (respond_with_token texts users sessions user status)
  unfolding respond_with_token success
  respond-Fine none status h = Gives-crash
  respond-Fine (some user) status h = or_refuse-Fine (sessions.issue user.id) _ with_token-Fine
    where
      with_token-Fine :
          (a : Option AuthRecord)
          → Gives {S = S} IsConsistent (with_token texts users sessions user status a)
      with_token-Fine none = Gives-crash
      with_token-Fine (some response) = Gives-pure _ (succeeds status _ h refl)

  sign_up-Fine :
      (body : Bound SignupRequest) → Gives IsConsistent (sign_up texts users sessions body)
  unfolding sign_up
  sign_up-Fine body = with_body-Fine body _ (λ req.
      or_refuse-Fine _ _ (λ valid. or_refuse-Fine _ _ (λ user. respond-Fine user 201 (inr refl))))

  login-Fine : (body : Bound LoginRequest) → Gives IsConsistent (login texts users sessions body)
  unfolding login
  login-Fine body = with_body-Fine body _ (λ req.
      or_refuse-Fine _ _ (λ valid. or_refuse-Fine _ _ (λ user. respond-Fine user 200 (inl refl))))

  get_me-Fine :
      (auth : Option (Option AuthContext)) → Gives IsConsistent (get_me texts users sessions auth)
  unfolding get_me
  get_me-Fine auth =
      or_refuse-Fine _ _ (λ who. or_refuse-Fine _ _ (λ user. Gives-pure _ (ok-IsConsistent _)))

  logout-Fine :
      (auth : Option (Option AuthContext)) → Gives IsConsistent (logout texts users sessions auth)
  unfolding logout
  logout-Fine auth =
      or_refuse-Fine _ _ (λ who. or_refuse-Fine _ _ (λ user. Gives-pure _ (msg-IsConsistent _)))

  shown-Fine : (tweet : Option TweetRecord) → Gives IsConsistent (shown texts parse tweets tweet)
  shown-Fine none = Gives-crash
  shown-Fine (some tweet) = Gives-pure _ (ok-IsConsistent _)

  create-Fine :
      (auth : Option (Option AuthContext)) (body : Bound CreateTweetRequest)
      → Gives IsConsistent (create texts parse tweets auth body)
  unfolding create
  create-Fine auth body = or_refuse-Fine _ _ (λ who. with_body-Fine body _ (λ req.
      or_refuse-Fine _ _
        (λ valid. or_refuse-Fine _ _ (λ tweet. Gives-pure _ (created-IsConsistent _)))))

  get-Fine : (id : String) → Gives IsConsistent (get texts parse tweets id)
  unfolding get
  get-Fine id = or_refuse-Fine _ _ (λ i. or_refuse-Fine _ _ shown-Fine)

  edited-Fine : (e : Option TweetRecord × Bool) → Gives IsConsistent (edited texts parse tweets e)
  edited-Fine (tweet, changed) =
      Gives-if changed _ _ (shown-Fine tweet) (Gives-pure _ (msg-IsConsistent _))

  update-Fine :
      (auth : Option (Option AuthContext)) (id : String) (body : Bound UpdateTweetRequest)
      → Gives IsConsistent (update texts parse tweets auth id body)
  unfolding update
  update-Fine auth id body = or_refuse-Fine _ _ (λ i. or_refuse-Fine _ _ (λ who.
      with_body-Fine body _ (λ req. or_refuse-Fine _ _ (λ valid. or_refuse-Fine _ _ edited-Fine))))

  delete-Fine :
      (auth : Option (Option AuthContext)) (id : String)
      → Gives IsConsistent (delete texts parse tweets auth id)
  unfolding delete
  delete-Fine auth id = or_refuse-Fine _ _ (λ i.
      or_refuse-Fine _ _ (λ who. or_refuse-Fine _ _ (λ done. Gives-pure _ (msg-IsConsistent _))))

  made-Fine : (row : Option FollowRecord) → Gives IsConsistent (made parse follows row)
  made-Fine none = Gives-crash
  made-Fine (some row) = Gives-pure _ (created-IsConsistent _)

  follow_bound-Fine :
      (who : AuthContext) (body : Bound FollowRequest)
      → Gives IsConsistent (follow_bound parse follows who body)
  follow_bound-Fine who (unbound e) = refused-Fine raw_bind_error
  follow_bound-Fine who (bound req) = or_refuse-Fine _ _ made-Fine

  un_follow_bound-Fine :
      (who : AuthContext) (body : Bound FollowRequest)
      → Gives IsConsistent (un_follow_bound parse follows who body)
  un_follow_bound-Fine who (unbound e) = refused-Fine raw_bind_error
  un_follow_bound-Fine who (bound req) =
      or_refuse-Fine _ _ (λ done. Gives-pure _ (msg-IsConsistent _))

  follow-Fine :
      (auth : Option (Option AuthContext)) (body : Bound FollowRequest)
      → Gives IsConsistent (follow parse follows auth body)
  unfolding follow
  follow-Fine auth body = or_refuse-Fine _ _ (λ who. follow_bound-Fine who body)

  un_follow-Fine :
      (auth : Option (Option AuthContext)) (body : Bound FollowRequest)
      → Gives IsConsistent (un_follow parse follows auth body)
  unfolding un_follow
  un_follow-Fine auth body = or_refuse-Fine _ _ (λ who. un_follow_bound-Fine who body)

  get_followers-Fine : (id : String) → Gives IsConsistent (get_followers parse follows id)
  unfolding get_followers
  get_followers-Fine id =
      or_refuse-Fine _ _ (λ user. or_refuse-Fine _ _ (λ infos. Gives-pure _ (ok-IsConsistent _)))

  get_followings-Fine : (id : String) → Gives IsConsistent (get_followings parse follows id)
  unfolding get_followings
  get_followings-Fine id =
      or_refuse-Fine _ _ (λ user. or_refuse-Fine _ _ (λ infos. Gives-pure _ (ok-IsConsistent _)))

  relation_to-Fine :
      (who : AuthContext) (target : Attempt ℤ)
      → Gives IsConsistent (relation_to parse follows who target)
  relation_to-Fine who (failed e) = Gives-pure _ (refused-IsConsistent 400 e (omega arith))
  relation_to-Fine who (returned target) =
      or_refuse-Fine _ _ (λ r. Gives-pure _ (ok-IsConsistent _))

  relation_for-Fine :
      (id : String) (who : Attempt AuthContext)
      → Gives IsConsistent (relation_for parse follows id who)
  relation_for-Fine id (failed e) = Gives-pure _ (refused-IsConsistent 401 e (omega arith))
  relation_for-Fine id (returned who) = Gives-bind _ _ (relation_to-Fine who)

  get_relation-Fine :
      (auth : Option (Option AuthContext)) (id : String)
      → Gives IsConsistent (get_relation parse follows auth id)
  unfolding get_relation
  get_relation-Fine auth id = Gives-bind _ _ (relation_for-Fine id)

  handle-Fine :
      (auth : Option (Option AuthContext)) (call : Call)
      → Gives IsConsistent (handle texts parse users sessions tweets follows auth call)
  unfolding handle
  handle-Fine auth (signup_call body) = sign_up-Fine body
  handle-Fine auth (login_call body) = login-Fine body
  handle-Fine auth (read_call id) = get-Fine id
  handle-Fine auth me_call = get_me-Fine auth
  handle-Fine auth logout_call = logout-Fine auth
  handle-Fine auth (post_call body) = create-Fine auth body
  handle-Fine auth (edit_call id body) = update-Fine auth id body
  handle-Fine auth (remove_call id) = delete-Fine auth id
  handle-Fine auth (follow_call body) = follow-Fine auth body
  handle-Fine auth (unfollow_call body) = un_follow-Fine auth body
  handle-Fine auth (status_call id) = get_relation-Fine auth id
  handle-Fine auth (followers_call id) = get_followers-Fine id
  handle-Fine auth (followings_call id) = get_followings-Fine id

  module _ (svc : AuthSessionService S) (lib : Strings) where
    -- What the middleware answers itself is a refusal.
    Refuses : Answer → Type 0
    Refuses (aborted status e) = 400 ≤ status
    Refuses (next who) = Unit

    admit-Refuses :
        (token : String) (a : Attempt (Option AuthRecord)) → Gives Refuses (admit svc token a)
    unfolding Refuses
    admit-Refuses token (failed e) = Gives-pure (abort e) (status-le e)
    admit-Refuses token (returned none) = Gives-crash
    admit-Refuses token (returned (some r)) =
        Gives-bind (attempt (svc.should_refresh r.expires_at r.created_at)) _ (λ should.
          Gives-bind (refresh_when svc token should) _ (λ u.
            Gives-pure (next (record { user_id = r.user_id; token = r.token; role = "" })) tt))

    enter-Refuses : (token : Result String) → Gives Refuses (enter svc token)
    unfolding Refuses
    enter-Refuses panic = Gives-crash
    enter-Refuses (err e) = Gives-pure (abort e) (status-le e)
    enter-Refuses (ok token) = Gives-bind (attempt (svc.validate token)) _ (admit-Refuses token)

    admitted-Fine :
        (call : Call) (answer : Answer)
        → Refuses answer
        → Gives IsConsistent
            (admitted texts parse users sessions tweets follows svc lib call answer)
    unfolding Refuses
    admitted-Fine call (aborted status e) h = Gives-pure _ (refused-IsConsistent status e h)
    admitted-Fine call (next who) h = handle-Fine (some (some who)) call

    guarded-Fine :
        (protected : Bool) (header : String) (call : Call)
        → Gives IsConsistent (
            if protected
            then (do
              answer ← auth_middleware svc lib header
              admitted texts parse users sessions tweets follows svc lib call answer)
            else handle texts parse users sessions tweets follows none call)
    unfolding auth_middleware
    guarded-Fine true header call = record {
      at = λ s a s' h.
          let (answer, t, ran, rest) =
            >>=-eq-ok (enter svc (extract_bearer_token lib header)) _ s h in
          (admitted-Fine call answer
              ((enter-Refuses (extract_bearer_token lib header)).at s answer t ran)).at
            t a s' rest;
    }
    guarded-Fine false header call = handle-Fine none call

    -- Whatever a call of the router is answered, the status and the envelope agree: 200 or 201
    -- without an error, or 400 and above with an error and no data.
    pub serve-IsConsistent :
        (header : String) (call : Call) (s s' : S) (answer : Sent)
        → serve texts parse users sessions tweets follows svc lib header call s ≡ (ok answer, s')
        → IsConsistent answer
    unfolding serve
    serve-IsConsistent header call s s' answer h =
        (guarded-Fine (is_protected call) header call).at s answer s' h
