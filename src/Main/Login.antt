-- ===== src/Main/Login.antt =====
-- The session of a login, through the session service, the session repository, the session store,
-- Redis and the crypto of internal, as `main` puts them together.
use Prim.Native.String.{len}
use aita.Common.{
  ◌+◌, ◌≤◌, ◌<◌, ℤ, pos, String, str_eq, str_eq_ne, ◌≡◌, refl, ap, sym, subst, true, false, Option,
  some, arith,
}
use aita.Exec.{ok}
use aita.Models.{Session}
use aita.Dto.Session.{SessionRecord, AuthRecord, to_auth_record, to_model}
use aita.Pkg.Crypto.{as_token_manager, IsEncoding, generate_token-len}
use aita.Pkg.Redis.{Key}
use aita.Db.Session.{as_store}
use aita.Db.Session.Stored.{IsReadable}
use aita.Db.Session.Found.{IsWriting, create-returns, create-get_session}
use aita.Repository.Session.Found.{create-get}
use aita.Repository.Session.{as_interface}
use aita.Service.Session.{session_duration, max_session_life, validate}
use aita.Service.Session.Laws.{validate_iff}
use aita.Service.Session.Issued.{new_session, issue-Issues}
use aita.Main.App.{
  Platform, Moment, session_repository, user_info, token_manager, session_manager, auth_service,
}

len-nonempty : (v : String) → 0 < len v → str_eq v "" ≡ false
len-nonempty v long = str_eq_ne v "" (λ empty. absurd (omega (arith, ap len empty)))

-- The clock at a request is within the life of the session that a login at `t` created.
pub record InLife (t t' : Moment) : Type 0 where
  pub known : 0 < t.created_at
  pub stored : t'.stored ≤ t.expires_from + session_duration
  pub unexpired : t'.authenticated ≤ t.expires_from + session_duration
  pub in_life : t'.authenticated ≤ t.created_at + max_session_life

-- What is relied on of Redis, of encoding/json and of encoding/base64.
pub record IsSound {S Bytes : Type 0} (held : S → Key → Option String) (p : Platform S Bytes)
    : Type 0 where
  pub writing : IsWriting held p.redis
  pub readable : IsReadable p.session_json
  pub encoding : IsEncoding p.crypto

module _ {S Bytes : Type 0} (held : S → Key → Option String) (p : Platform S Bytes)
    (sound : IsSound held p) (t t' : Moment) where
  -- The session that a login at `t` creates for a token.
  abbrev session_of : ℤ → String → SessionRecord
  session_of user_id token =
      new_session t.expires_from t.created_at user_id ((token_manager p t).hash token)

  abbrev auth_of : ℤ → String → AuthRecord
  auth_of user_id token = record {
    user_id = user_id;
    token = token;
    expires_at = t.expires_from + session_duration;
    created_at = t.created_at;
  }

  abbrev model_of : ℤ → String → Session
  model_of user_id token = record {
    id = pos 0;
    user_id = user_id;
    token_hash = (token_manager p t).hash token;
    expires_at = t.expires_from + session_duration;
    created_at = t.created_at;
  }

  -- What the repository has created at `t` it finds at `t'`.
  create-found :
      (user_id : ℤ) (token : String) (s s' : S) (saved : SessionRecord)
      → (session_repository p t).create (session_of user_id token) s ≡ (ok (some saved), s')
      → t'.stored ≤ t.expires_from + session_duration
      → (saved ≡ session_of user_id token)
        × ((session_repository p t').get ((token_manager p t).hash token) s' ≡ (
          ok (some (session_of user_id token)),
          ((session_repository p t').get ((token_manager p t).hash token) s').1,
        ))
  unfolding to_model as_store as_interface
  create-found user_id token s s' saved h stored =
      create-get (as_store p.session_json p.redis t.stored)
        (as_store p.session_json p.redis t'.stored) (session_of user_id token) s s' saved
        (λ m made. (
          create-returns held p.session_json p.redis sound.writing sound.readable t.stored
              (model_of user_id token) s s' m made,
          create-get_session held p.session_json p.redis sound.writing sound.readable t.stored
              t'.stored (model_of user_id token) m s s' made stored,
        ))
        h

  validate-found :
      (user_id : ℤ) (token : String) (s u : S)
      → InLife t t'
      → len token ≡ 44
      → (session_repository p t').get ((token_manager p t).hash token) s ≡ (
        ok (some (session_of user_id token)),
        ((session_repository p t').get ((token_manager p t).hash token) s).1,
      )
      → (user_info p t').exists user_id
          ((session_repository p t').get ((token_manager p t).hash token) s).1
        ≡ (ok true, u)
      → validate
          (session_repository p t')
          (user_info p t')
          (token_manager p t')
          t'.authenticated
          token
          s
        ≡ (ok (some (auth_of user_id token)), u)
  unfolding to_auth_record
  validate-found user_id token s u life long found known =
      (validate_iff (session_repository p t') (user_info p t') (token_manager p t') t'.authenticated
          token s (some (auth_of user_id token)) u).1
        (record {
          session = session_of user_id token;
          looked_up = ((session_repository p t').get ((token_manager p t).hash token) s).1;
          authentic = record {
            nonempty = len-nonempty token (omega arith);
            long_enough = omega arith;
            short_enough = omega arith;
            fetched = found;
            alive = record {
              expiry_known = ground arith;
              creation_known = ground (arith, life.known);
              unexpired = life.unexpired;
              in_life = life.in_life;
            };
          };
          user_exists = known;
          answer = refl;
        })

  -- What `Issue` answered at `t` is accepted at `t'`, for the user that it was issued to.
  pub issue-validate :
      (user_id : ℤ) (a : AuthRecord) (s s' u : S)
      → (session_manager p t).issue user_id s ≡ (ok (some a), s')
      → InLife t t'
      → (user_info p t').exists user_id
          ((session_repository p t').get ((token_manager p t').hash a.token) s').1
        ≡ (ok true, u)
      → ((auth_service p t').validate a.token s' ≡ (ok (some a), u)) × (a.user_id ≡ user_id)
  unfolding session_manager auth_service to_auth_record as_token_manager
  issue-validate user_id a s s' u h life known =
      let issued =
        issue-Issues (session_repository p t) (user_info p t) (token_manager p t) t.expires_from
          t.created_at user_id s a s' h in
      let (same, found) =
        create-found user_id issued.token issued.drawn_in s' issued.saved issued.created
          life.stored in
      let same_auth = answered issued.saved issued.token issued.answer same in
      (
        subst
            (λ x.
              (user_info p t').exists user_id
                  ((session_repository p t').get ((token_manager p t').hash x.token) s').1
                ≡ (ok true, u)
              → validate (session_repository p t') (user_info p t') (token_manager p t')
                  t'.authenticated x.token s'
                ≡ (ok (some x), u))
            (sym same_auth)
            (validate-found user_id issued.token s' u life
              (generate_token-len p.crypto sound.encoding issued.token s issued.drawn_in
                issued.drawn)
              found)
            known,
        ap (λ x. x.user_id) same_auth,
      )
    where
      answered :
          (saved : SessionRecord) (token : String)
          → some a ≡ to_auth_record (some saved) token
          → saved ≡ session_of user_id token
          → a ≡ auth_of user_id token
      answered saved token e same = ground (arith, e, same)
