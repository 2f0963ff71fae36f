-- ===== src/Service/Session/Laws.antt =====
-- What a session token is good for: internal/service/session_service.go.
use Prim.Native.String.{len}
use aita.Common.{
  ◌+◌, ◌≤◌, ◌<◌, ℤ, int_eq_ne, int_eq_iff, String, str_eq, ◌≡◌, refl, ◌≢◌, ◌↔◌, ◌⊎◌, Bool, true,
  false, not, Option, some, ltb, arith, if◌then◌else◌,
}
use aita.Errcode.{sentinel, user_not_found, forbidden}
use aita.Exec.{ok, err, >>=-eq-ok, fail, pure, wrap_err}
use aita.Models.{Time}
use aita.Dto.Session.{SessionRecord, AuthRecord, to_auth_record}
use aita.Service.Session.{
  max_session_life, session_duration, SessionRepository, UserInfoProvider, TokenManager,
  expiration_check, should_refresh, validate_and_hash, authenticate, new_expiry, execute_refresh,
  validate, revoke,
}

-- What `expirationCheck` lets through.
pub record IsAlive (now : Time) (r : SessionRecord) : Type 0 where
  pub expiry_known : 0 < r.expires_at
  pub creation_known : 0 < r.created_at
  pub unexpired : now ≤ r.expires_at
  pub in_life : now ≤ r.created_at + max_session_life

pub expiration_check-IsAlive :
    (now : Time) (r : SessionRecord)
    → expiration_check now r.expires_at r.created_at ≡ ok tt
    → IsAlive now r
unfolding expiration_check
expiration_check-IsAlive now r h = record {
  expiry_known = ground arith;
  creation_known = ground arith;
  unexpired = ground arith;
  in_life = ground arith;
}

pub IsAlive-expiration_check :
    (now : Time) (r : SessionRecord)
    → IsAlive now r
    → expiration_check now r.expires_at r.created_at ≡ ok tt
unfolding expiration_check
IsAlive-expiration_check now r h = ground arith

-- With the two times that a login writes, a session of the full duration asks for a refresh exactly
-- in the last quarter of its day.
pub should_refresh_window :
    (created now : Time)
    → 0 < created
    → now ≤ created + session_duration
    → should_refresh now now (created + session_duration) created
      ≡ ok (ltb (created + 64_800_000_000_000) now)
unfolding should_refresh expiration_check
should_refresh_window created now h k = ground arith

-- The last test of `Validate`, read backwards.
granted :
    {S : Type 0} (b : Bool) (o a : Option AuthRecord) (s s' : S)
    → (if not b then fail user_not_found else pure o) s ≡ (ok a, s')
    → (b ≡ true) × (a ≡ o) × (s ≡ s')
granted true o a s s' h = (refl, ground arith, ground arith)
granted false o a s s' h = cc

module _ {S : Type 0} (repo : SessionRepository S) (users : UserInfoProvider S)
    (tm : TokenManager S) where
  -- The token is well formed, its hash is that of the session `r`, and `r` is alive.
  pub record Authenticates (now : Time) (token : String) (s : S) (r : SessionRecord) (s' : S)
      : Type 0 where
    pub nonempty : str_eq token "" ≡ false
    pub long_enough : 32 ≤ len token
    pub short_enough : len token ≤ 255
    pub fetched : repo.get (tm.hash token) s ≡ (ok (some r), s')
    pub alive : IsAlive now r

  pub authenticate-Authenticates :
      (now : Time) (token : String) (s : S) (r : SessionRecord) (s' : S)
      → authenticate repo users tm now token s ≡ (ok r, s')
      → Authenticates now token s r s'
  unfolding authenticate
  authenticate-Authenticates now token s r s' h = record {
    nonempty = ground arith;
    long_enough = ground arith;
    short_enough = ground arith;
    fetched = ground arith;
    alive = record {
      expiry_known = ground arith;
      creation_known = ground arith;
      unexpired = ground arith;
      in_life = ground arith;
    };
  }

  pub Authenticates-authenticate :
      (now : Time) (token : String) (s : S) (r : SessionRecord) (s' : S)
      → Authenticates now token s r s'
      → authenticate repo users tm now token s ≡ (ok r, s')
  unfolding authenticate
  Authenticates-authenticate now token s r s' h = ground (arith, h.alive)

  -- What `Validate` grants: the record of the session `r`, whose user exists.
  pub record Grants (now : Time) (token : String) (s : S) (a : Option AuthRecord) (s'' : S)
      : Type 0 where
    pub session : SessionRecord
    pub looked_up : S
    pub authentic : Authenticates now token s session looked_up
    pub user_exists : users.exists session.user_id looked_up ≡ (ok true, s'')
    pub answer : a ≡ to_auth_record (some session) token

  -- `Validate` answers with a record exactly when the token is 32 to 255 bytes long, the repository
  -- has a session under its hash, that session is before its expiry and within seven days of its
  -- creation, and its user exists; the answer is then that session's, with the token.
  pub validate_iff :
      (now : Time) (token : String) (s : S) (a : Option AuthRecord) (s'' : S)
      → (validate repo users tm now token s ≡ (ok a, s'')) ↔ Grants now token s a s''
  unfolding validate
  validate_iff now token s a s'' = (sound, complete)
    where
      sound : validate repo users tm now token s ≡ (ok a, s'') → Grants now token s a s''
      sound h =
          let (r, s', e, k) = >>=-eq-ok (authenticate repo users tm now token) _ s h in
          let (b, s3, e', k') = >>=-eq-ok (users.exists r.user_id) _ s' k in
          let (yes_b, same_a, same_s) = granted b (to_auth_record (some r) token) a s3 s'' k' in
          record {
            session = r;
            looked_up = s';
            authentic = authenticate-Authenticates now token s r s' e;
            user_exists = cc (e', yes_b, same_s);
            answer = same_a;
          }

      complete : Grants now token s a s'' → validate repo users tm now token s ≡ (ok a, s'')
      complete g =
          rw (Authenticates-authenticate now token s g.session g.looked_up g.authentic, validate)
            (rw (g.user_exists, g.answer))

  -- A session that is alive and belongs to another user is not revoked: the answer is the sentinel
  -- of 403, and nothing but the lookup has touched the state.
  pub revoke_foreign :
      (now : Time) (user_id : ℤ) (token : String) (s : S) (r : SessionRecord) (s' : S)
      → Authenticates now token s r s'
      → r.user_id ≢ user_id
      → revoke repo users tm now user_id token s ≡ (err (sentinel forbidden), s')
  unfolding revoke
  revoke_foreign now user_id token s r s' a other =
      rw (Authenticates-authenticate now token s r s' a, revoke)
        (rw (int_eq_ne r.user_id user_id other))

  revoke_own :
      (now : Time) (user_id : ℤ) (token : String) (s : S) (r : SessionRecord) (s' : S)
      → Authenticates now token s r s'
      → r.user_id ≡ user_id
      → revoke repo users tm now user_id token s
        ≡ wrap_err
            (repo.delete (record {
              user_id = user_id;
              token_hash = r.token_hash;
              expires_at = 0;
              created_at = 0;
            }))
            s'
  unfolding revoke
  revoke_own now user_id token s r s' a own =
      rw (Authenticates-authenticate now token s r s' a, revoke)
        (rw ((int_eq_iff r.user_id user_id).1 own))

  -- A refresh writes back the session that it read with nothing changed but its expiry, which is a
  -- day from now, or the end of the session's seven days where that is earlier.
  pub execute_refresh_lem :
      (now : Time) (token : String) (s : S) (r : SessionRecord) (s' : S)
      → validate_and_hash tm token ≡ ok (tm.hash token)
      → repo.get (tm.hash token) s ≡ (ok (some r), s')
      → (e : Time) × (execute_refresh repo users tm now token s
          ≡ wrap_err (repo.update (record r { expires_at = e })) s')
        × (e ≤ now + session_duration)
        × (e ≤ r.created_at + max_session_life)
        × ((e ≡ now + session_duration) ⊎ (e ≡ r.created_at + max_session_life))
  unfolding execute_refresh new_expiry
  execute_refresh_lem now token s r s' valid h = (
    new_expiry now r.created_at,
    rw (valid, h, execute_refresh),
    ground arith,
    ground arith,
    ground arith,
  )
