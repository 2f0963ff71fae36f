-- ===== src/Service/User/Calm.antt =====
-- internal/service/user_service.go ends without a panic over a repository and a hasher that do.
use aita.Common.{ℤ, String, is_nonpos, Option, none, some, List, [], ◌∷◌}
use aita.Errcode.{
  wrapped, required_field_missing, invalid_credentials, invalid_user_id, is_user_not_found,
}
use aita.Exec.{Attempt, returned, failed}
use aita.Exec.Calm.{
  Any, IsSome, Tried, Calm, Calm-pure, Calm-raise, Calm-fail, Calm-if, Calm-bind, Calm-bind_with,
  Calm-attempt, Calm-any, Calm-wrap_err,
}
use aita.Dto.User.{UserRecord}
use aita.Service.Tweet.{deref}
use aita.Service.User.{
  UserRepository, PasswordHasher, register, exists_by_email, by_email, compared, login,
  to_my_account, exists, get_info_lists,
}

pub record IsCalmUserRepository {S : Type 0} (repo : UserRepository S) : Type 0 where
  pub creates : (r : UserRecord) → Calm IsSome (repo.create r)
  pub finds_email : (email : String) → Calm IsSome (repo.get_by_email email)
  pub finds_id : (id : ℤ) → Calm IsSome (repo.get_full_by_id id)
  pub tells : (id : ℤ) → Calm Any (repo.exists id)
  pub names : (ids : List ℤ) → Calm Any (repo.get_base_infos ids)

pub record IsCalmHasher {S : Type 0} (hasher : PasswordHasher S) : Type 0 where
  pub generates : (password : String) → Calm Any (hasher.generate password)
  pub compares : (hash password : String) → Calm Any (hasher.compare hash password)

-- A pointer that is not nil is read.
pub deref-Calm : {S A : Type 0} (o : Option A) → IsSome o → Calm {S = S} Any (deref o)
deref-Calm none h = absurd h
deref-Calm (some a) h = Calm-pure a tt

module _ {S : Type 0} (repo : UserRepository S) (hasher : PasswordHasher S)
    (calm : IsCalmUserRepository repo) (calm_hasher : IsCalmHasher hasher) where
  pub register-Calm :
      (name email password : String) → Calm IsSome (register repo hasher name email password)
  unfolding register
  register-Calm name email password = Calm-if _ _ _ (Calm-fail required_field_missing) (
      Calm-bind _ _ (Calm-wrap_err _ (calm_hasher.generates password))
        (λ hash. Calm-wrap_err _ (calm.creates _)))

  exists_by_email-Calm : (email : String) → Calm IsSome (exists_by_email repo hasher email)
  unfolding exists_by_email
  exists_by_email-Calm email =
      Calm-if _ _ _ (Calm-fail required_field_missing)
        (Calm-bind_with (Tried IsSome) _ _ (Calm-attempt _ (calm.finds_email email)) by_lookup)
    where
      by_lookup :
          (a : Attempt (Option UserRecord)) → Tried IsSome a → Calm IsSome (by_email repo hasher a)
      by_lookup (returned o) h = Calm-pure o h
      by_lookup (failed e) h =
          Calm-if (is_user_not_found e) _ _ (Calm-fail invalid_credentials) (Calm-raise (wrapped e))

  pub login-Calm : (email password : String) → Calm IsSome (login repo hasher email password)
  unfolding login
  login-Calm email password = Calm-if _ _ _ (Calm-fail required_field_missing) (
      Calm-bind_with IsSome _ _ (exists_by_email-Calm email) (λ found h.
        Calm-bind _ _ (deref-Calm found h) (λ user.
          Calm-bind _ _
            (Calm-any _ (Calm-attempt _ (calm_hasher.compares user.password_hash password)))
            (by_verdict user))))
    where
      by_verdict :
          (user : UserRecord) (a : Attempt (Unit {0})) → Calm IsSome (compared repo hasher user a)
      by_verdict user (returned u) = Calm-pure (some user) tt
      by_verdict user (failed e) = Calm-fail invalid_credentials

  pub to_my_account-Calm : (id : ℤ) → Calm Any (to_my_account repo hasher id)
  unfolding to_my_account
  to_my_account-Calm id =
      Calm-if (is_nonpos id) _ _ (Calm-fail invalid_user_id)
        (Calm-wrap_err _ (Calm-any _ (calm.finds_id id)))

  pub exists-Calm : (id : ℤ) → Calm Any (exists repo hasher id)
  unfolding exists
  exists-Calm id =
      Calm-if (is_nonpos id) _ _ (Calm-fail invalid_user_id) (Calm-wrap_err _ (calm.tells id))

  pub get_info_lists-Calm : (ids : List ℤ) → Calm Any (get_info_lists repo hasher ids)
  unfolding get_info_lists
  get_info_lists-Calm [] = Calm-pure _ tt
  get_info_lists-Calm (id ∷ ids) = Calm-wrap_err _ (calm.names (id ∷ ids))
