-- ===== src/Api/Router/Callers.antt =====
-- Whom the protected routes of internal/api/router.go act for.
use aita.Common.{
  ℕ, ℤ, String, ◌≡◌, ◌≢◌, refl, sym, ◌∙◌, ap, if◌then◌else◌, true, arith, Option, none, some,
}
use aita.Errcode.{Error}
use aita.Exec.{ok, Exec, ◌>>=◌, pure, >>=-eq-ok}
use aita.Models.{Time}
use aita.Dto.Session.{AuthRecord, AuthContext}
use aita.Service.Session.{SessionRepository, UserInfoProvider, TokenManager}
use aita.Service.Session.Laws.{Grants}
use aita.Api.Auth.{Strings, Answer, aborted, next, extract_bearer_token, auth_middleware}
use aita.Api.Auth.Identity.{session_service, auth_middleware-Grants}
use aita.Api.Response.{Response, fail_with, Sent}
use aita.Api.User.{UserService, SessionManager}
use aita.Api.Tweet.{TweetService}
use aita.Api.Follow.{FollowService}
use aita.Api.Router.{Call, is_protected, handle, admitted, serve}

module _ {S : Type 0} (texts : aita.Api.Request.Strings) (parse : String → Option ℤ)
    (users : UserService S) (sessions : SessionManager S) (tweets : TweetService S)
    (follows : FollowService S) (repo : SessionRepository S) (infos : UserInfoProvider S)
    (tm : TokenManager S) (go : Exec S Unit → S → S) (now now1 now2 now3 : Time)
    (lib : Strings) where
  abbrev guard : aita.Api.Auth.AuthSessionService S
  guard = session_service repo infos tm go now now1 now2 now3

  same_body :
      (st status : ℕ) (b body : Response) (s s' : S)
      → pure {A = Sent} (st, b) s ≡ (ok (status, body), s')
      → b ≡ body
  same_body st status b body s s' h = ground arith

  fail_with-ne-none : (e : Error) (body : Response) → fail_with e ≡ body → body.error ≢ none
  unfolding fail_with
  fail_with-ne-none e body h fine = cc (ap (λ b. b.error) h, fine)

  admitted-fine :
      (call : Call) (answer : Answer) (s s' : S) (status : ℕ) (body : Response)
      → admitted texts parse users sessions tweets follows guard lib call answer s
        ≡ (ok (status, body), s')
      → body.error ≡ none
      → (who : AuthContext) × (answer ≡ next who)
        × (handle texts parse users sessions tweets follows (some (some who)) call s
            ≡ (ok (status, body), s'))
  admitted-fine call (next who) s s' status body h fine = (who, refl, h)
  admitted-fine call (aborted st e) s s' status body h fine =
      absurd (fail_with-ne-none e body (same_body st status (fail_with e) body s s' h) fine)

  -- A protected route whose answer has no error was handled for a user for whom the session service
  -- had granted the token of the `Authorization` header: a session in the repository, before its
  -- expiry and within seven days of its creation, of a user that exists.
  pub serve-Grants :
      (header : String) (call : Call) (s s' : S) (status : ℕ) (body : Response)
      → is_protected call ≡ true
      → serve texts parse users sessions tweets follows guard lib header call s
        ≡ (ok (status, body), s')
      → body.error ≡ none
      → (who : AuthContext) × (token : String) × (a : AuthRecord) × (s1 : S) × (s2 : S)
        × (extract_bearer_token lib header ≡ ok token)
        × (Grants repo infos tm now token s (some a) s1)
        × (who.user_id ≡ a.user_id)
        × (handle texts parse users sessions tweets follows (some (some who)) call s2
            ≡ (ok (status, body), s'))
  unfolding serve
  serve-Grants header call s s' status body protected h fine =
      let (answer, s2, ran, rest) = >>=-eq-ok (auth_middleware guard lib header) _ s (
        sym (
          ap
            (λ b.
              (if b
                  then (do
                    answer ← auth_middleware guard lib header
                    admitted texts parse users sessions tweets follows guard lib call answer)
                  else handle texts parse users sessions tweets follows none call)
                s)
            protected)
        ∙ h) in
      let (who, same, handled) = admitted-fine call answer s2 s' status body rest fine in
      let (token, a, s1, bearer, grants, user, tok) =
        auth_middleware-Grants repo infos tm go now now1 now2 now3 lib header s who s2
          (ran ∙ ap (λ x. (ok x, s2)) same) in
      (who, token, a, s1, s2, bearer, grants, user, handled)
