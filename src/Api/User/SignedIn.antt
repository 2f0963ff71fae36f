-- ===== src/Api/User/SignedIn.antt =====
-- What a login that answers with a token has done: internal/api/user_handler.go.
use aita.Common.{ℕ, ◌≡◌, refl, ap, ◌∙◌, Option, none, some, arith}
use aita.Exec.{ok, lift}
use aita.Dto.User.{UserRecord, to_user_response}
use aita.Dto.Session.{AuthRecord}
use aita.Api.Request.{Strings, LoginRequest, validate_login}
use aita.Api.Response.{LoginResponse, login_data, success, Bound}
use aita.Api.Response.Paid.{Pays, or_refuse-Pays, with_body-Pays}
use aita.Api.User.{UserService, SessionManager, with_token, respond_with_token, login}

module _ {S : Type 0} (lib : Strings) (users : UserService S) (sessions : SessionManager S) where
  -- The user service has accepted the user, and the session service has issued the token.
  pub record SignsIn (s : S) (d : LoginResponse) (s' : S) : Type 0 where
    pub request : LoginRequest
    pub before : S
    pub user : UserRecord
    pub issued_in : S
    pub auth : AuthRecord
    pub accepted : users.login request.email request.password before ≡ (ok (some user), issued_in)
    pub issued : sessions.issue user.id issued_in ≡ (ok (some auth), s')
    pub same_token : d.session_token ≡ auth.token
    pub same_user : d.user ≡ to_user_response (some user)

  with_token-Pays :
      (user : UserRecord) (status : ℕ) (o : Option AuthRecord) (s : S) (d : LoginResponse) (s' : S)
      → Pays (with_token lib users sessions user status o) s (login_data d) s'
      → (a : AuthRecord) × (o ≡ some a)
        × (s ≡ s')
        × (d.session_token ≡ a.token)
        × (d.user ≡ to_user_response (some user))
  unfolding success
  with_token-Pays user status none s d s' (sent, h, paid) = cc
  with_token-Pays user status (some a) s d s' (sent, h, paid) =
      (a, refl, ground (arith, h), ground (arith, h, paid), ground (arith, h, paid))

  respond-Pays :
      (o : Option UserRecord) (status : ℕ) (s : S) (d : LoginResponse) (s' : S)
      → Pays (respond_with_token lib users sessions o status) s (login_data d) s'
      → (user : UserRecord) × (a : AuthRecord) × (o ≡ some user)
        × (sessions.issue user.id s ≡ (ok (some a), s'))
        × (d.session_token ≡ a.token)
        × (d.user ≡ to_user_response (some user))
  unfolding respond_with_token
  respond-Pays none status s d s' (sent, h, paid) = cc
  respond-Pays (some user) status s d s' h =
      let (o, t, issued, rest) =
        or_refuse-Pays (sessions.issue user.id) (with_token lib users sessions user status) s
          (login_data d) s' h in
      let (a, was, here, token, same) = with_token-Pays user status o t d s' rest in
      (user, a, refl, issued ∙ (λ i. (ok (was i), here i)), token, same)

  pub login-SignsIn :
      (body : Bound LoginRequest) (s : S) (d : LoginResponse) (s' : S)
      → Pays (login lib users sessions body) s (login_data d) s'
      → SignsIn s d s'
  unfolding login
  login-SignsIn body s d s' h =
      let (req, bound_to, p1) = with_body-Pays body _ s (login_data d) s' h in
      let (valid, s1, checked, p2) =
        or_refuse-Pays (lift (validate_login lib req)) _ s (login_data d) s' p1 in
      let (o, s2, found, p3) =
        or_refuse-Pays (users.login valid.email valid.password) _ s1 (login_data d) s' p2 in
      let (user, a, was, issued, token, same) = respond-Pays o 200 s2 d s' p3 in
      record {
        request = valid;
        before = s1;
        user = user;
        issued_in = s2;
        auth = a;
        accepted = found ∙ ap (λ x. (ok x, s2)) was;
        issued = issued;
        same_token = token;
        same_user = same;
      }
