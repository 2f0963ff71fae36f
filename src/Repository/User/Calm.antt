-- ===== src/Repository/User/Calm.antt =====
-- internal/repository/user_repository.go ends without a panic over a store, a cache, flights and a
-- pool that do, and a record that it returns is not nil.
use aita.Common.{ℤ, String, Bool, true, false, Option, none, some, List, [], ◌∷◌}
use aita.Errcode.{user_not_found, is_user_not_found}
use aita.Exec.{Attempt, returned, failed}
use aita.Exec.Calm.{
  Any, IsSome, Tried, Calm, Calm-pure, Calm-raise, Calm-fail, Calm-if, Calm-bind, Calm-bind_with,
  Calm-attempt, Calm-any,
}
use aita.Models.{User}
use aita.Dto.User.{UserRecord, to_user_model, new_user_record}
use aita.Pkg.Pool.{Pool}
use aita.Pkg.Singleflight.{Group, Waits}
use aita.Pkg.Calm.{Calm-ignore, IsCalmPool, IsCalmGroup, Calm-get_data}
use aita.Repository.User.{
  UserStore, UserCache, InfoMap, Task, Flown, email_key, users_key, exists_key, create, created,
  known, get_by_email, get_full_by_id, exists, found_row, exists_in_store, cached_exists,
  get_base_infos, fill,
}

pub record IsCalmUserStore {S : Type 0} (store : UserStore S) : Type 0 where
  pub creates : (u : User) → Calm IsSome (store.create (some u))
  pub finds_email : (email : String) → Calm IsSome (store.get_by_email email)
  pub finds_id : (id : ℤ) → Calm IsSome (store.get_full_by_id id)
  pub names : (ids : List ℤ) → Calm Any (store.get_names_by_ids ids)

pub record IsCalmUserCache {S : Type 0} (cache : UserCache S) : Type 0 where
  pub tells : (id : ℤ) → Calm Any (cache.exists id)
  pub lists : (ids : List ℤ) → Calm Any (cache.get_lists ids)

module _ {S : Type 0} (store : UserStore S) (cache : UserCache S) (pool : Pool S Task)
    (sf : Group S Flown) (calm_store : IsCalmUserStore store) (calm_cache : IsCalmUserCache cache)
    (calm_pool : IsCalmPool pool) (calm_sf : IsCalmGroup sf) where
  pub create_user-Calm : (r : UserRecord) → Calm IsSome (create store cache pool sf r)
  unfolding create to_user_model new_user_record
  create_user-Calm r = Calm-bind_with IsSome _ _ (calm_store.creates _) by_row
    where
      by_row : (o : Option User) → IsSome o → Calm IsSome (created store cache pool sf o)
      by_row none h = absurd h
      by_row (some u) h = Calm-pure _ tt

  known-Calm : (o : Option User) → Calm IsSome (known store cache pool sf o)
  unfolding new_user_record
  known-Calm none = Calm-fail user_not_found
  known-Calm (some u) = Calm-pure _ tt

  pub get_by_email-Calm :
      (w : Waits) (email : String) → Calm IsSome (get_by_email store cache pool sf w email)
  unfolding get_by_email
  get_by_email-Calm w email =
      Calm-bind _ _
        (Calm-get_data w sf (email_key email) _ calm_sf (Calm-any _ (calm_store.finds_email email)))
        known-Calm

  pub get_full_by_id-Calm :
      (w : Waits) (id : ℤ) → Calm IsSome (get_full_by_id store cache pool sf w id)
  unfolding get_full_by_id
  get_full_by_id-Calm w id =
      Calm-bind _ _
        (Calm-get_data w sf (users_key id) _ calm_sf (Calm-any _ (calm_store.finds_id id)))
        known-Calm

  pub exists-Calm : (w : Waits) (id : ℤ) → Calm Any (exists store cache pool sf w id)
  unfolding exists
  exists-Calm w id =
      Calm-bind_with (Tried Any) _ _ (Calm-attempt _ (calm_cache.tells id)) (λ a h. by_cache a)
    where
      by_row : (a : Attempt (Option User)) → Calm Any (found_row store cache pool sf a)
      by_row (returned o) = Calm-pure true tt
      by_row (failed e) = Calm-if (is_user_not_found e) _ _ (Calm-pure false tt) (Calm-raise e)

      from_store : Calm Any (exists_in_store store cache pool sf id)
      from_store = Calm-bind _ _ (Calm-any _ (Calm-attempt _ (calm_store.finds_id id))) by_row

      by_cache : (a : Attempt Bool) → Calm Any (cached_exists store cache pool sf w id a)
      by_cache (returned true) = Calm-pure true tt
      by_cache (returned false) = Calm-get_data w sf (exists_key id) _ calm_sf from_store
      by_cache (failed e) = Calm-get_data w sf (exists_key id) _ calm_sf from_store

  pub get_base_infos-Calm : (ids : List ℤ) → Calm Any (get_base_infos store cache pool sf ids)
  unfolding get_base_infos
  get_base_infos-Calm [] = Calm-pure [] tt
  get_base_infos-Calm (id ∷ ids) =
      Calm-bind _ _ (Calm-any _ (Calm-attempt _ (calm_cache.lists (id ∷ ids))))
        (λ got. Calm-bind _ _ (filled _ _) (λ full. Calm-pure _ tt))
    where
      filled : (m : InfoMap) (missing : List ℤ) → Calm Any (fill store cache pool sf m missing)
      filled m [] = Calm-pure m tt
      filled m (i ∷ is) =
          Calm-bind _ _ (calm_store.names (i ∷ is))
            (λ rows. Calm-bind _ _ (Calm-ignore _ (calm_pool.submits _)) (λ done. Calm-pure _ tt))
