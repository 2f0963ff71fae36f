-- ===== src/Main/Calm/Users.antt =====
-- The users and the sessions as `main` of cmd/api/main.go puts their parts together end without a
-- panic.
use aita.Common.{ℕ, ℤ}
use aita.Exec.{Exec}
use aita.Exec.Calm.{Any, Calm, Calm-pure, Calm-lift, Calm-bind, Calm-any}
use aita.Pkg.Crypto.{generate_hash, compare_hash, generate_token, as_hasher, as_token_manager}
use aita.Pkg.Calm.{IsCalmPool, IsCalmGroup}
use aita.Db.Calm.{
  IsCalmJson, create_user-Calm, get_by_email-Calm, get_full_by_id-Calm, get_names_by_ids-Calm,
  create_session-Calm, get_session-Calm, delete_session-Calm,
}
use aita.Repository.User.Calm.{IsCalmUserStore, IsCalmUserCache}
use aita.Repository.Session.Calm.{IsCalmSessionStore}
use aita.Service.User.Calm.{IsCalmUserRepository, IsCalmHasher}
use aita.Service.Session.Calm.{IsCalmSessionRepository, should_refresh-Lands}
use aita.Api.Router.Handlers.{IsCalmUsers, IsCalmSessions}
use aita.Api.Router.Calm.{IsCalmAuth}
use aita.Main.App.{
  Platform, Moment, hasher, token_manager, user_cache, user_pool, user_repository,
  session_repository, user_info, user_service, session_manager, auth_service,
}

-- What third parties provide does not panic on the caller: a pool runs a closure on a goroutine of
-- its own.
pub record IsCalmPlatform {S Bytes : Type 0} (p : Platform S Bytes) : Type 0 where
  pub session_json : IsCalmJson p.session_json
  pub tweet_json : IsCalmJson p.tweet_json
  pub hashes :
      (password : Bytes) (cost : ℤ) → Calm Any (p.crypto.generate_from_password password cost)
  pub compares :
      (hash password : Bytes) → Calm Any (p.crypto.compare_hash_and_password hash password)
  pub draws : (n : ℕ) → Calm Any (p.crypto.random_bytes n)
  pub user_flights : IsCalmGroup p.user_flights
  pub tweet_flights : IsCalmGroup p.tweet_flights
  pub follow_flights : IsCalmGroup p.follow_flights
  pub backfills : (m : Exec S Unit) → Calm Any (p.backfill_pool.submit m)
  pub works : (m : Exec S Unit) → Calm Any (p.worker_pool.submit m)

module _ {S Bytes : Type 0} (p : Platform S Bytes) (t : Moment) (calm : IsCalmPlatform p) where
  -- The pools, as their users see them.
  pub user_pool-IsCalm : IsCalmPool (user_pool p t)
  user_pool-IsCalm = record { submits = λ task. calm.backfills _ }

  -- The user repository and service.
  user_store-IsCalm : IsCalmUserStore (aita.Db.User.as_store p.users p.users_tx)
  unfolding aita.Db.User.as_store
  user_store-IsCalm = record {
    creates = create_user-Calm p.users p.users_tx;
    finds_email = get_by_email-Calm p.users p.users_tx;
    finds_id = get_full_by_id-Calm p.users p.users_tx;
    names = get_names_by_ids-Calm p.users p.users_tx;
  }

  user_cache-IsCalm : IsCalmUserCache (user_cache p t)
  unfolding aita.Cache.User.as_cache
  user_cache-IsCalm = record {
    tells = aita.Cache.Calm.user_exists-Calm p.codec p.user_json p.rand p.redis;
    lists = aita.Cache.Calm.get_lists-Calm p.codec p.user_json p.rand p.redis;
  }

  pub user_repository-IsCalm : IsCalmUserRepository (user_repository p t)
  unfolding aita.Repository.User.as_interface
  user_repository-IsCalm = record {
    creates =
        aita.Repository.User.Calm.create_user-Calm _ _ _ _ user_store-IsCalm user_cache-IsCalm
          user_pool-IsCalm calm.user_flights;
    finds_email =
        aita.Repository.User.Calm.get_by_email-Calm _ _ _ _ user_store-IsCalm user_cache-IsCalm
          user_pool-IsCalm calm.user_flights t.waits;
    finds_id =
        aita.Repository.User.Calm.get_full_by_id-Calm _ _ _ _ user_store-IsCalm user_cache-IsCalm
          user_pool-IsCalm calm.user_flights t.waits;
    tells =
        aita.Repository.User.Calm.exists-Calm _ _ _ _ user_store-IsCalm user_cache-IsCalm
          user_pool-IsCalm calm.user_flights t.waits;
    names =
        aita.Repository.User.Calm.get_base_infos-Calm _ _ _ _ user_store-IsCalm user_cache-IsCalm
          user_pool-IsCalm calm.user_flights;
  }

  pub hasher-IsCalm : IsCalmHasher (hasher p t)
  unfolding as_hasher generate_hash compare_hash
  hasher-IsCalm = record {
    generates = λ password. Calm-bind _ _ (calm.hashes _ _) (λ hash. Calm-pure _ tt);
    compares = λ hash password. calm.compares _ _;
  }

  pub user_service-IsCalm : IsCalmUsers (user_service p t)
  unfolding user_service
  user_service-IsCalm = record {
    registers = aita.Service.User.Calm.register-Calm _ _ user_repository-IsCalm hasher-IsCalm;
    logs_in = aita.Service.User.Calm.login-Calm _ _ user_repository-IsCalm hasher-IsCalm;
    accounts = aita.Service.User.Calm.to_my_account-Calm _ _ user_repository-IsCalm hasher-IsCalm;
  }

  tells-Calm : (id : ℤ) → Calm Any ((user_info p t).exists id)
  tells-Calm = aita.Service.User.Calm.exists-Calm _ _ user_repository-IsCalm hasher-IsCalm

  -- The sessions.
  session_store-IsCalm :
      IsCalmSessionStore (aita.Db.Session.as_store p.session_json p.redis t.stored)
  unfolding aita.Db.Session.as_store
  session_store-IsCalm = record {
    creates =
        λ m. Calm-any _ (create_session-Calm p.session_json p.redis calm.session_json t.stored m);
    finds = get_session-Calm p.session_json p.redis calm.session_json t.stored;
    deletes = delete_session-Calm p.session_json p.redis calm.session_json;
  }

  session_repository-IsCalm : IsCalmSessionRepository (session_repository p t)
  unfolding aita.Repository.Session.as_interface
  session_repository-IsCalm = record {
    creates = aita.Repository.Session.Calm.create-Calm _ session_store-IsCalm;
    finds = aita.Repository.Session.Calm.get-Calm _ session_store-IsCalm;
    deletes = aita.Repository.Session.Calm.delete-Calm _ session_store-IsCalm;
  }

  draws-Calm : Calm Any ((token_manager p t).generate 32)
  unfolding as_token_manager generate_token
  draws-Calm = Calm-bind _ _ (calm.draws 32) (λ b. Calm-pure _ tt)

  pub session_manager-IsCalm : IsCalmSessions (session_manager p t)
  unfolding session_manager
  session_manager-IsCalm = record {
    issues =
        aita.Service.Session.Calm.issue-Calm _ (user_info p t) (token_manager p t)
          session_repository-IsCalm tells-Calm draws-Calm t.expires_from t.created_at;
    revokes =
        aita.Service.Session.Calm.revoke-Calm _ (user_info p t) (token_manager p t)
          session_repository-IsCalm tells-Calm draws-Calm t.authenticated;
  }

  pub auth_service-IsCalm : IsCalmAuth (auth_service p t)
  unfolding auth_service aita.Service.Session.refresh_async
  auth_service-IsCalm = record {
    validates =
        aita.Service.Session.Calm.validate-Calm _ (user_info p t) (token_manager p t)
          session_repository-IsCalm tells-Calm draws-Calm t.authenticated;
    refreshes = λ expires_at created_at.
        Calm-lift _ (should_refresh-Lands t.checked t.remaining expires_at created_at);
    starts = λ token. record { at = λ s. tt };
  }
