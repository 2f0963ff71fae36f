-- ===== src/Service/Session/Calm.antt =====
-- internal/service/session_service.go ends without a panic over a repository, a user service and a
-- token manager that do.
use aita.Common.{ℤ, String, not, is_nonpos, int_eq, Option, none, some, arith}
use aita.Errcode.{required_field_missing, user_not_found, forbidden}
use aita.Exec.{Attempt, returned, failed}
use aita.Exec.Calm.{
  Lands, Any, IsSome, Calm, Calm-pure, Calm-fail, Calm-lift, Calm-if, Calm-bind, Calm-attempt,
  Calm-any, Calm-wrap_err,
}
use aita.Models.{Time}
use aita.Dto.Session.{SessionRecord, to_auth_record}
use aita.Service.Session.{
  SessionRepository, UserInfoProvider, TokenManager, validate_and_hash, expiration_check,
  should_refresh, require, authenticate, issue, validate, revoke,
}

pub record IsCalmSessionRepository {S : Type 0} (repo : SessionRepository S) : Type 0 where
  pub creates : (r : SessionRecord) → Calm IsSome (repo.create r)
  pub finds : (hash : String) → Calm IsSome (repo.get hash)
  pub deletes : (r : SessionRecord) → Calm Any (repo.delete r)

require-Lands : (a : Attempt (Option SessionRecord)) → Lands Any (require a)
require-Lands (failed e) = tt
require-Lands (returned none) = tt
require-Lands (returned (some r)) = tt

expiration_check-Lands :
    (now expires_at created_at : Time) → Lands Any (expiration_check now expires_at created_at)
unfolding expiration_check
expiration_check-Lands now expires_at created_at = ground arith

pub should_refresh-Lands :
    (now now' expires_at created_at : Time)
    → Lands Any (should_refresh now now' expires_at created_at)
unfolding should_refresh expiration_check
should_refresh-Lands now now' expires_at created_at = ground arith

module _ {S : Type 0} (repo : SessionRepository S) (users : UserInfoProvider S)
    (tm : TokenManager S) (calm : IsCalmSessionRepository repo)
    (tells : (id : ℤ) → Calm Any (users.exists id)) (draws : Calm Any (tm.generate 32)) where
  validate_and_hash-Lands : (token : String) → Lands Any (validate_and_hash tm token)
  unfolding validate_and_hash
  validate_and_hash-Lands token = ground arith

  authenticate-Calm :
      (now : Time) (token : String) → Calm Any (authenticate repo users tm now token)
  unfolding authenticate
  authenticate-Calm now token = Calm-bind _ _ (Calm-lift _ (validate_and_hash-Lands token)) (λ hash.
      Calm-bind _ _ (Calm-any _ (Calm-attempt _ (calm.finds hash))) (λ fetched.
        Calm-bind _ _ (Calm-lift _ (require-Lands fetched)) (λ found.
          Calm-bind _ _ (Calm-lift _ (expiration_check-Lands now found.expires_at found.created_at))
            (λ fine. Calm-pure found tt))))

  pub issue-Calm : (now now' : Time) (id : ℤ) → Calm IsSome (issue repo users tm now now' id)
  unfolding issue to_auth_record
  issue-Calm now now' id = Calm-if (is_nonpos id) _ _ (Calm-fail required_field_missing) (
      Calm-bind _ _ (Calm-wrap_err _ draws) (λ token.
        Calm-bind _ _ (Calm-any _ (Calm-attempt _ (calm.creates _))) (λ created.
          Calm-bind _ _ (Calm-lift _ (require-Lands created)) (λ saved. Calm-pure _ tt))))

  pub validate-Calm : (now : Time) (token : String) → Calm IsSome (validate repo users tm now token)
  unfolding validate to_auth_record
  validate-Calm now token = Calm-bind _ _ (authenticate-Calm now token) (λ found.
      Calm-bind _ _ (tells found.user_id)
        (λ res. Calm-if (not res) _ _ (Calm-fail user_not_found) (Calm-pure _ tt)))

  pub revoke-Calm :
      (now : Time) (id : ℤ) (token : String) → Calm Any (revoke repo users tm now id token)
  unfolding revoke
  revoke-Calm now id token = Calm-bind _ _ (authenticate-Calm now token) (λ check.
      Calm-if (not (int_eq check.user_id id)) _ _ (Calm-fail forbidden)
        (Calm-wrap_err _ (calm.deletes _)))
