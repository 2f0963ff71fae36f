-- ===== src/Service/Session.antt =====
-- internal/service/session_service.go. A method takes the times that its calls of `time.Now`
-- return, in their order; the repository, the users and the tokens are the interfaces that the
-- file declares, over a state `S` that all of them share.
pub mod Calm
pub mod Laws
pub mod Lifetime
pub mod Issued
use Prim.Native.String.{len}
use aita.Common.{
  ℕ, ◌+◌, ◌-◌, ◌/◌, ℤ, is_nonpos, int_eq, String, str_eq, Bool, true, false, not, ◌||◌, Option,
  none, some, ltb, leb, nat_eq, if◌then◌else◌,
}
use aita.Errcode.{
  Error, wrapped, foreign, sentinel, session_not_found, invalid_token_format,
  required_field_missing, session_expired, user_not_found, forbidden,
}
use aita.Exec.{
  Result, ok, err, panic, Exec, ◌>>=◌, ◌>>◌, pure, raise, fail, crash, lift, Attempt, returned,
  failed, attempt, wrap_err,
}
use aita.Models.{Time}
use aita.Dto.Session.{SessionRecord, AuthRecord, to_auth_record}

-- const_service.go, in nanoseconds
abbrev pub max_session_life : ℕ
max_session_life = 604_800_000_000_000

abbrev pub session_duration : ℕ
session_duration = 86_400_000_000_000

pub record SessionRepository (S : Type 0) : Type 0 where
  pub create : SessionRecord → Exec S (Option SessionRecord)
  pub get : String → Exec S (Option SessionRecord)
  pub update : SessionRecord → Exec S Unit
  pub delete : SessionRecord → Exec S Unit

pub record UserInfoProvider (S : Type 0) : Type 0 where
  pub exists : ℤ → Exec S Bool

pub record TokenManager (S : Type 0) : Type 0 where
  pub generate : ℕ → Exec S String
  pub hash : String → String

-- The error of `fmt.Errorf("…%w", nil)`.
abbrev pub nil_wrapped : Error
nil_wrapped = foreign 0

-- expirationCheck at the time `now`
unfoldable pub expiration_check : Time → Time → Time → Result (Unit {0})
expiration_check now expires_at created_at =
    if nat_eq expires_at 0 || nat_eq created_at 0
    then err (sentinel required_field_missing)
    else if ltb expires_at now
    then err (sentinel session_expired)
    else if ltb (created_at + max_session_life) now
    then err (sentinel session_expired)
    else ok tt

-- ShouldRefresh: `now` is the time of the check and `now'` that of the remaining duration, which
-- is `expires_at - now'` and may be negative: the test is `remaining < total / 4`.
unfoldable pub should_refresh : Time → Time → Time → Time → Result Bool
unfolding expiration_check
should_refresh now now' expires_at created_at = elim (expiration_check now expires_at created_at) [
  | err e ↦ err e
  | panic ↦ panic
  | ok _ ↦
      if leb expires_at created_at
      then err (sentinel session_expired)
      else ok (ltb expires_at (now' + (expires_at - created_at) / 4))
]

module _ {S : Type 0} (tm : TokenManager S) where
  -- validateAndHash
  unfoldable pub validate_and_hash : String → Result String
  validate_and_hash token =
      if str_eq token ""
      then err (sentinel session_not_found)
      else if ltb (len token) 32 || ltb 255 (len token)
      then err (sentinel invalid_token_format)
      else ok (tm.hash token)

-- The `err != nil || record == nil` of a fetched session.
abbrev require : Attempt (Option SessionRecord) → Result SessionRecord
require (failed e) = err (wrapped e)
require (returned none) = err nil_wrapped
require (returned (some r)) = ok r

-- The value of `tokenHash`, whose error `executeRefresh` overwrites.
abbrev hash_or_empty : Result String → String
hash_or_empty (ok h) = h
hash_or_empty _ = ""

-- `newExpiry` of `executeRefresh`
unfoldable pub new_expiry : Time → Time → Time
new_expiry now created_at =
    if ltb (created_at + max_session_life) (now + session_duration)
    then created_at + max_session_life
    else now + session_duration

module _ {S : Type 0} (repo : SessionRepository S) (users : UserInfoProvider S)
    (tm : TokenManager S) where
  -- authenticate
  unfoldable pub authenticate : Time → String → Exec S SessionRecord
  unfolding validate_and_hash expiration_check
  authenticate now token = do
    token_hash ← lift (validate_and_hash tm token)
    fetched ← attempt (repo.get token_hash)
    found ← lift (require fetched)
    lift (expiration_check now found.expires_at found.created_at)
    pure found

  -- executeRefresh
  unfoldable pub execute_refresh : Time → String → Exec S Unit
  execute_refresh now token = do
    fetched ← attempt (repo.get (hash_or_empty (validate_and_hash tm token)))
    found ← lift (require fetched)
    wrap_err (repo.update (record found { expires_at = new_expiry now found.created_at }))

  -- Issue
  unfoldable pub issue : Time → Time → ℤ → Exec S (Option AuthRecord)
  unfolding to_auth_record
  issue now now' user_id = if is_nonpos user_id then fail required_field_missing else do
    token ← wrap_err (tm.generate 32)
    created ← attempt (
        repo.create (record {
          user_id = user_id;
          token_hash = tm.hash token;
          expires_at = now + session_duration;
          created_at = now';
        }))
    saved ← lift (require created)
    pure (to_auth_record (some saved) token)

  -- Validate
  unfoldable pub validate : Time → String → Exec S (Option AuthRecord)
  unfolding to_auth_record
  validate now token = do
    found ← authenticate now token
    res ← users.exists found.user_id
    if not res then fail user_not_found else pure (to_auth_record (some found) token)

  -- Revoke
  unfoldable pub revoke : Time → ℤ → String → Exec S Unit
  revoke now user_id token = do
    check ← authenticate now token
    if not (int_eq check.user_id user_id)
        then fail forbidden
        else wrap_err (
            repo.delete (record {
              user_id = user_id;
              token_hash = check.token_hash;
              expires_at = 0;
              created_at = 0;
            }))

-- What the middleware takes from `sessionService`. The goroutine of `RefreshAsync` runs when
-- `go` lets it, and its error and its panic end there.
module _ {S : Type 0} (repo : SessionRepository S) (users : UserInfoProvider S)
    (tm : TokenManager S) where
  -- RefreshAsync
  unfoldable pub refresh_async : (Exec S Unit → S → S) → Time → String → Exec S Unit
  unfolding execute_refresh
  refresh_async go now token s = (ok tt, go (execute_refresh repo users tm now token) s)
