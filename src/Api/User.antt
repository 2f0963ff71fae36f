-- ===== src/Api/User.antt =====
-- internal/api/user_handler.go. `auth` is the value that the context holds under `AuthPayloadKey`.
pub mod SignedIn
use aita.Common.{ℕ, ℤ, String, Option, none, some}
use aita.Exec.{Exec, pure, crash, lift}
use aita.Dto.User.{UserRecord, to_user_response, to_user_profile}
use aita.Dto.Session.{AuthRecord, AuthContext}
use aita.Api.Auth.{get_auth_context}
use aita.Api.Request.{Strings, SignupRequest, LoginRequest, validate_signup, validate_login}
use aita.Api.Response.{
  login_data, profile_data, success, success_msg, Sent, Bound, or_refuse, with_body,
}

pub record UserService (S : Type 0) : Type 0 where
  pub register : String → String → String → Exec S (Option UserRecord)
  pub login : String → String → Exec S (Option UserRecord)
  pub to_my_account : ℤ → Exec S (Option UserRecord)

pub record SessionManager (S : Type 0) : Type 0 where
  pub issue : ℤ → Exec S (Option AuthRecord)
  pub revoke : ℤ → String → Exec S Unit

abbrev logged_out : String
logged_out = "ログアウトしました"

module _ {S : Type 0} (lib : Strings) (users : UserService S) (sessions : SessionManager S) where
  abbrev pub with_token : UserRecord → ℕ → Option AuthRecord → Exec S Sent
  with_token user status none = crash
  with_token user status (some response) = pure (
    status,
    success (
        login_data
          (record { session_token = response.token; user = to_user_response (some user) })),
  )

  -- respondWithToken
  unfoldable pub respond_with_token : Option UserRecord → ℕ → Exec S Sent
  respond_with_token none status = crash
  respond_with_token (some user) status =
      or_refuse (sessions.issue user.id) (with_token user status)

  abbrev pub sign_up_bound : SignupRequest → Exec S Sent
  sign_up_bound req = or_refuse (lift (validate_signup lib req)) (λ valid.
      or_refuse (users.register valid.username valid.email valid.password)
        (λ user. respond_with_token user 201))

  -- SignUp
  unfoldable pub sign_up : Bound SignupRequest → Exec S Sent
  unfolding respond_with_token
  sign_up body = with_body body sign_up_bound

  abbrev pub login_bound : LoginRequest → Exec S Sent
  login_bound req = or_refuse (lift (validate_login lib req)) (λ valid.
      or_refuse (users.login valid.email valid.password) (λ user. respond_with_token user 200))

  -- Login
  unfoldable pub login : Bound LoginRequest → Exec S Sent
  unfolding respond_with_token
  login body = with_body body login_bound

  -- GetMe
  unfoldable pub get_me : Option (Option AuthContext) → Exec S Sent
  get_me auth = or_refuse (lift (get_auth_context auth)) (λ caller.
      or_refuse (users.to_my_account caller.user_id)
        (λ user. pure (200, success (profile_data (to_user_profile user)))))

  -- Logout
  unfoldable pub logout : Option (Option AuthContext) → Exec S Sent
  logout auth = or_refuse (lift (get_auth_context auth)) (λ caller.
      or_refuse (sessions.revoke caller.user_id caller.token)
        (λ done. pure (200, success_msg logged_out)))
