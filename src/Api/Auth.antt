-- ===== src/Api/Auth.antt =====
-- internal/api/middleware.go and the helpers of internal/api/api_helper.go that it stands on. The
-- functions of the package strings are a parameter, `Strings`; the session service is the
-- interface that the file declares. What `AbortWithStatusJSON` and `Next` lead to is a value, an
-- `Answer`.
pub mod Identity
use aita.Common.{
  ℕ, ℤ, is_nonpos, String, str_eq, Bool, true, false, ◌||◌, Option, none, some, List, [], ◌∷◌,
  if◌then◌else◌,
}
use aita.Errcode.{Error, Sentinel, sentinel, session_not_found, invalid_id_format, get_status_code}
use aita.Exec.{
  Result, ok, err, panic, Exec, ◌>>=◌, ◌>>◌, pure, crash, lift, Attempt, returned, failed, attempt,
}
use aita.Models.{Time}
use aita.Dto.Session.{AuthRecord, AuthContext}

pub record Strings : Type 0 where
  pub split_n : String → String → ℕ → List String
  pub equal_fold : String → String → Bool
  pub trim_space : String → String

abbrev pub token_or_missing : String → Result String
token_or_missing token = if str_eq token "" then err (sentinel session_not_found) else ok token

-- The parts that `SplitN` gives.
abbrev pub bearer_of : Strings → List String → Result String
bearer_of lib (scheme ∷ rest ∷ []) =
    if lib.equal_fold scheme "bearer"
    then token_or_missing (lib.trim_space rest)
    else err (sentinel session_not_found)
bearer_of lib _ = err (sentinel session_not_found)

-- extractBearerToken
unfoldable pub extract_bearer_token : Strings → String → Result String
extract_bearer_token lib header =
    if str_eq header ""
    then err (sentinel session_not_found)
    else bearer_of lib (lib.split_n header " " 2)

-- GetAuthContext, of the value that the context holds under `AuthPayloadKey`.
unfoldable pub get_auth_context : Option (Option AuthContext) → Result AuthContext
get_auth_context (some (some auth)) = ok auth
get_auth_context _ = err (sentinel session_not_found)

-- GetIDParam; `parse` is `ParseInt64WithErr`, `none` its error.
unfoldable pub get_id_param : (String → Option ℤ) → String → Result ℤ
get_id_param parse id_str = elim (parse id_str) [
  | none ↦ err (sentinel invalid_id_format)
  | some id ↦ if is_nonpos id then err (sentinel invalid_id_format) else ok id
]

pub record AuthSessionService (S : Type 0) : Type 0 where
  pub validate : String → Exec S (Option AuthRecord)
  pub should_refresh : Time → Time → Exec S Bool
  pub refresh_async : String → Exec S Unit

-- The status and the error that a request is aborted with, or what the next handler finds.
pub data Answer : Type 0 where
  aborted : ℕ → Error → Answer
  next : AuthContext → Answer

abbrev pub abort : Error → Answer
abort e = aborted (get_status_code (some e)) e

module _ {S : Type 0} (svc : AuthSessionService S) where
  -- `if should, _ := svc.ShouldRefresh(…); should`
  abbrev pub refresh_when : String → Attempt Bool → Exec S Unit
  refresh_when token (returned true) = svc.refresh_async token
  refresh_when token _ = pure tt

  -- The rest, with the response that `Validate` gave.
  abbrev pub admit : String → Attempt (Option AuthRecord) → Exec S Answer
  admit token (failed e) = pure (abort e)
  admit token (returned none) = crash
  admit token (returned (some response)) = do
    should ← attempt (svc.should_refresh response.expires_at response.created_at)
    refresh_when token should
    pure (next (record { user_id = response.user_id; token = response.token; role = "" }))

  abbrev pub enter : Result String → Exec S Answer
  enter panic = crash
  enter (err e) = pure (abort e)
  enter (ok token) = do response ← attempt (svc.validate token); admit token response

  -- AuthMiddleware
  unfoldable pub auth_middleware : Strings → String → Exec S Answer
  unfolding extract_bearer_token get_status_code
  auth_middleware lib auth_header = enter (extract_bearer_token lib auth_header)
