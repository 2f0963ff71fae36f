-- ===== src/Api/Auth/Identity.antt =====
-- Whom a request acts for: internal/api/middleware.go over internal/service/session_service.go.
use aita.Common.{String, ◌≡◌, ◌≢◌, refl, sym, Bool, true, false, Option, none, some, arith}
use aita.Exec.{
  Result, ok, err, panic, Exec, >>=-eq-ok, attempt, Attempt, returned, failed, attempt-eq-returned,
  lift, pure, ◌>>=◌, ◌>>◌,
}
use aita.Models.{Time}
use aita.Dto.Session.{AuthRecord, AuthContext}
use aita.Service.Session.{
  SessionRepository, UserInfoProvider, TokenManager, expiration_check, should_refresh, validate,
  execute_refresh, refresh_async,
}
use aita.Service.Session.Laws.{Grants, validate_iff}
use aita.Api.Auth.{
  Strings, extract_bearer_token, AuthSessionService, next, refresh_when, admit, enter,
  auth_middleware,
}

module _ {S : Type 0} (svc : AuthSessionService S) where
  -- The header names a token for which `Validate` answers with the identity `who`.
  pub record Admits (lib : Strings) (header : String) (s : S) (who : AuthContext) : Type 0 where
    pub token : String
    pub bearer : extract_bearer_token lib header ≡ ok token
    pub response : AuthRecord
    pub validated_in : S
    pub validated : svc.validate token s ≡ (ok (some response), validated_in)
    pub same_user : who.user_id ≡ response.user_id
    pub same_token : who.token ≡ response.token

  admit-next :
      (token : String) (a : Attempt (Option AuthRecord)) (s : S) (who : AuthContext) (s' : S)
      → admit svc token a s ≡ (ok (next who), s')
      → (r : AuthRecord) × (a ≡ returned (some r))
        × (who.user_id ≡ r.user_id)
        × (who.token ≡ r.token)
  admit-next token (failed e) s who s' h = cc
  admit-next token (returned none) s who s' h = cc
  admit-next token (returned (some r)) s who s' h =
      let (b, s1, e, k) =
        >>=-eq-ok (attempt (svc.should_refresh r.expires_at r.created_at)) _ s h in
      let (u, s2, e', k') = >>=-eq-ok (refresh_when svc token b) _ s1 k in
      (r, refl, ground arith, ground arith)

  enter-Admits :
      (lib : Strings) (header : String) (r : Result String) (s : S) (who : AuthContext) (s' : S)
      → extract_bearer_token lib header ≡ r
      → enter svc r s ≡ (ok (next who), s')
      → Admits lib header s who
  enter-Admits lib header (ok token) s who s' e h =
      let (a, s1, f, k) = >>=-eq-ok (attempt (svc.validate token)) _ s h in
      let (r, same, user, tok) = admit-next token a s1 who s' k in
      record {
        token = token;
        bearer = e;
        response = r;
        validated_in = s1;
        validated = attempt-eq-returned (svc.validate token) s (some r) s1 (rw (sym same) f);
        same_user = user;
        same_token = tok;
      }
  enter-Admits lib header (err x) s who s' e h = cc
  enter-Admits lib header panic s who s' e h = cc

  -- A request that reaches its handler has an `Authorization` header with a bearer token, and
  -- `Validate` has answered for this token; the handler acts for the user of that answer.
  pub auth_middleware-Admits :
      (lib : Strings) (header : String) (s : S) (who : AuthContext) (s' : S)
      → auth_middleware svc lib header s ≡ (ok (next who), s')
      → Admits lib header s who
  unfolding auth_middleware
  auth_middleware-Admits lib header s who s' h =
      enter-Admits lib header (extract_bearer_token lib header) s who s' refl h

module _ {S : Type 0} (repo : SessionRepository S) (users : UserInfoProvider S)
    (tm : TokenManager S) where
  -- `sessionService` as the middleware sees it: `Validate` reads the clock at `now`, `ShouldRefresh`
  -- at `now1` and `now2`, the goroutine of `RefreshAsync` at `now3`.
  unfoldable pub session_service :
      (Exec S Unit → S → S) → Time → Time → Time → Time → AuthSessionService S
  session_service go now now1 now2 now3 = record {
    validate = validate repo users tm now;
    should_refresh = λ expires_at created_at. lift (should_refresh now1 now2 expires_at created_at);
    refresh_async = refresh_async repo users tm go now3;
  }

  -- With the session service behind the middleware, a request that reaches its handler acts for an
  -- existing user, for whom the repository held a session, under the hash of the token that the
  -- header names, which was before its expiry and within seven days of its creation.
  pub auth_middleware-Grants :
      (go : Exec S Unit → S → S) (now now1 now2 now3 : Time) (lib : Strings) (header : String)
      (s : S) (who : AuthContext) (s' : S)
      → auth_middleware (session_service go now now1 now2 now3) lib header s ≡ (ok (next who), s')
      → (token : String) × (a : AuthRecord) × (s1 : S) × (extract_bearer_token lib header
          ≡ ok token)
        × (Grants repo users tm now token s (some a) s1)
        × (who.user_id ≡ a.user_id)
        × (who.token ≡ a.token)
  unfolding session_service
  auth_middleware-Grants go now now1 now2 now3 lib header s who s' h =
      let a =
        auth_middleware-Admits (session_service go now now1 now2 now3) lib header s who s' h in
      (
        a.token,
        a.response,
        a.validated_in,
        a.bearer,
        (validate_iff repo users tm now a.token s (some a.response) a.validated_in).0 a.validated,
        a.same_user,
        a.same_token,
      )

  should_refresh-ne-panic :
      (now1 now2 expires_at created_at : Time)
      → should_refresh now1 now2 expires_at created_at ≢ panic
  unfolding should_refresh expiration_check
  should_refresh-ne-panic now1 now2 expires_at created_at h = ground arith

  -- The handler of a request whose token `Validate` accepts is reached, for the user of the session.
  pub auth_middleware-validated :
      (go : Exec S Unit → S → S) (now now1 now2 now3 : Time) (lib : Strings) (header token : String)
      (s : S) (a : AuthRecord) (u : S)
      → extract_bearer_token lib header ≡ ok token
      → validate repo users tm now token s ≡ (ok (some a), u)
      → (v : S) × (auth_middleware (session_service go now now1 now2 now3) lib header s
          ≡ (ok (next (record { user_id = a.user_id; token = a.token; role = "" })), v))
  unfolding auth_middleware session_service refresh_async
  auth_middleware-validated go now now1 now2 now3 lib header token s a u bearer validated =
      let (v, reached) =
        by_refresh (should_refresh now1 now2 a.expires_at a.created_at)
          (should_refresh-ne-panic now1 now2 a.expires_at a.created_at) in
      (v, rw bearer (rw validated reached))
    where
      by_refresh :
          (r : Result Bool)
          → r ≢ panic
          → (v : S) × ((do
            should ← attempt (lift r)
            refresh_when (session_service go now now1 now2 now3) token should
            pure (next (record { user_id = a.user_id; token = a.token; role = "" })))
                u
              ≡ (ok (next (record { user_id = a.user_id; token = a.token; role = "" })), v))
      by_refresh (ok true) calm = (go (execute_refresh repo users tm now3 token) u, refl)
      by_refresh (ok false) calm = (u, refl)
      by_refresh (err e) calm = (u, refl)
      by_refresh panic calm = absurd (calm refl)
