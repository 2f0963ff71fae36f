-- ===== src/Main/SignIn.antt =====
-- From the login to the requests that its token admits: the router of cmd/api/main.go with all that
-- stands behind it.
use aita.Common.{String, ◌≡◌, refl, ap, sym, ◌∙◌, true, Option, some, arith}
use aita.Exec.{ok, Exec}
use aita.Dto.Session.{AuthRecord, AuthContext}
use aita.Dto.User.{UserRecord, UserResponse, to_user_response}
use aita.Pkg.Redis.{Key}
use aita.Api.Auth.{extract_bearer_token}
use aita.Api.Auth.Identity.{auth_middleware-validated}
use aita.Api.Request.{LoginRequest}
use aita.Api.Response.{LoginResponse, login_data, Sent, Bound}
use aita.Api.Response.Paid.{Pays}
use aita.Api.User.SignedIn.{SignsIn, login-SignsIn}
use aita.Api.Router.{Call, login_call, is_protected, handle, serve}
use aita.Main.App.{
  Platform, Moment, session_repository, user_info, token_manager, user_service, session_manager,
  tweet_service, follow_handlers_service, auth_service, answer,
}
use aita.Main.Login.{InLife, IsSound, issue-validate}

module _ {S Bytes : Type 0} (p : Platform S Bytes) (t : Moment) where
  -- The handlers, with the value that the context holds under `AuthPayloadKey`.
  abbrev pub handled : AuthContext → Call → Exec S Sent
  handled who =
      handle p.request_strings p.parse_id (user_service p t) (session_manager p t)
        (tweet_service p t) (follow_handlers_service p t) (some (some who))

module _ {S Bytes : Type 0} (held : S → Key → Option String) (p : Platform S Bytes)
    (sound : IsSound held p) (t t' : Moment) where
  validated-answer :
      (header token : String) (call : Call) (s : S) (a : AuthRecord) (u : S)
      → is_protected call ≡ true
      → extract_bearer_token p.header_strings header ≡ ok token
      → (auth_service p t').validate token s ≡ (ok (some a), u)
      → (v : S) × (answer p t' header call s
          ≡ handled p t' (record { user_id = a.user_id; token = a.token; role = "" }) call v)
  unfolding answer auth_service serve
  validated-answer header token call s a u protected bearer validated =
      let (v, reached) =
        auth_middleware-validated (session_repository p t') (user_info p t') (token_manager p t')
          p.go t'.authenticated t'.checked t'.remaining t'.refreshed p.header_strings header token s
          a u bearer validated in
      (v, rw protected (rw reached refl))

  signs_in :
      (header : String) (body : Bound LoginRequest) (s : S) (d : LoginResponse) (s' : S)
      → Pays (answer p t header (login_call body)) s (login_data d) s'
      → SignsIn p.request_strings (user_service p t) (session_manager p t) s d s'
  unfolding answer serve is_protected handle
  signs_in header body s d s' paid =
      login-SignsIn p.request_strings (user_service p t) (session_manager p t) body s d s' paid

  same_id :
      (r : UserRecord) (user : UserResponse)
      → some user ≡ to_user_response (some r)
      → user.id ≡ r.id
  unfolding to_user_response
  same_id r user h = ground (arith, h)

  -- The token that a login answers lets its bearer in: as `main` puts the parts together, every
  -- protected call whose `Authorization` header bears that token is handled for the user whom the
  -- login named, while the clock is within the life of the session and the user can still be found.
  -- Redis keeps the text that `SET` with `NX` wrote at the head of the pipeline, sessions can be
  -- read back from JSON, and 32 bytes are 44 characters of Base64.
  pub login-answer :
      (header header' : String) (body : Bound LoginRequest) (call : Call) (s s' u : S)
      (d : LoginResponse) (user : UserResponse)
      → Pays (answer p t header (login_call body)) s (login_data d) s'
      → d.user ≡ some user
      → InLife t t'
      → extract_bearer_token p.header_strings header' ≡ ok d.session_token
      → (user_info p t').exists user.id
          ((session_repository p t').get ((token_manager p t').hash d.session_token) s').1
        ≡ (ok true, u)
      → is_protected call ≡ true
      → (v : S) × (answer p t' header' call s'
          ≡ handled p t' (record { user_id = user.id; token = d.session_token; role = "" }) call v)
  login-answer header header' body call s s' u d user paid whose life bearer known protected =
      let signed = signs_in header body s d s' paid in
      let id = same_id signed.user user (sym whose ∙ signed.same_user) in
      let (valid, same) =
        issue-validate held p sound t t' signed.user.id signed.auth signed.issued_in s' u
          signed.issued life (rw (sym signed.same_token, sym id) known) in
      let (v, answered) =
        validated-answer header' signed.auth.token call s' signed.auth u protected
          (bearer ∙ ap ok signed.same_token) valid in
      (
        v,
        answered ∙ λ i.
            handled p t'
              (record { user_id = (same ∙ sym id) i; token = sym signed.same_token i; role = "" })
              call v,
      )
