-- ===== src/Service/Follow/Wiring.antt =====
-- The follow service over the user service, the repositories and the stores, as cmd/api/main.go puts
-- them together: where a long list of followers ends.
use aita.Pkg.Json.{Json}
use aita.Pkg.Utils.{Rand}
use aita.Dto.TimeLine.{Codec}
use aita.Pkg.Redis.{Key, user_data, Client, IsRefusing}
use aita.Cache.User.{get_lists, as_cache}
use aita.Cache.Batch.Sound.{get_many_missed}
use aita.Common.{
  ℤ, String, In, none, ◌<◌, is_nonpos, length, lt→ltb, ◌≡◌, refl, false, Option, List, [], ◌∷◌,
  arith,
}
use aita.Errcode.{Error, wrapped}
use aita.Exec.{ok, err}
use aita.Pkg.Pool.{Pool}
use aita.Pkg.Singleflight.{Group, Waits}
use aita.Db.Transactor.{base}
use aita.Db.User.{UserTable, too_many_ids, get_names_by_ids, as_store}
use aita.Repository.Batch.{missed}
use aita.Repository.Batch.Agree.{missed-empty_map}
use aita.Models.{UserInfo}
use aita.Repository.User.{UserCache, Task, Flown, get_base_infos, as_interface}
use aita.Service.User.{
  PasswordHasher, update_following_count, update_follower_count, exists, get_info_lists,
}
use aita.Service.Follow.{
  FollowRepository, CountManager, TransactionManager, FollowService, get_followers,
  get_follower_ids,
}

module _ {S : Type 0} (db tx : UserTable S) (cache : UserCache S) (pool : Pool S Task)
    (sf : Group S Flown) (hasher : PasswordHasher S) (w : Waits) where
  -- The user service as the interface of the follow service.
  unfoldable pub as_count_manager : CountManager S
  as_count_manager = record {
    update_following_count =
        λ ctx. update_following_count (as_interface (as_store db tx) cache pool sf w ctx) hasher;
    update_follower_count =
        λ ctx. update_follower_count (as_interface (as_store db tx) cache pool sf w ctx) hasher;
    exists = exists (as_interface (as_store db tx) cache pool sf w base) hasher;
    get_info_lists = get_info_lists (as_interface (as_store db tx) cache pool sf w base) hasher;
  }

  -- The store refuses to look up more than 500 users.
  pub get_info_lists_long :
      (ids : List ℤ) (s s' : S) (e : Error)
      → 500 < length ids
      → cache.get_lists ids s ≡ (err e, s')
      → as_count_manager.get_info_lists ids s ≡ (err (wrapped too_many_ids), s')
  unfolding as_count_manager get_info_lists as_interface get_base_infos as_store get_names_by_ids
      missed
  get_info_lists_long [] s s' e long missed = absurd (omega (arith, long))
  get_info_lists_long (id ∷ ids) s s' e long missed =
      rw (missed, missed-empty_map UserInfo ids, lt→ltb 500 (length (id ∷ ids)) long) refl

  abbrev pub service : FollowRepository S → Option (TransactionManager S) → FollowService S
  service fr tm = record {
    follow_repository = fr;
    count_manager = as_count_manager;
    transaction_manager = tm;
  }

module _ {S : Type 0} (held : S → Key → Option String) (client : Client S)
    (law : IsRefusing held client) (json : Json UserInfo) (c : Codec) (rand : Rand S)
    (db tx : UserTable S) (pool : Pool S Task) (sf : Group S Flown) (hasher : PasswordHasher S)
    (w : Waits) (fr : FollowRepository S) (tm : Option (TransactionManager S)) where
  -- The followers of a user who has more than 500 of them cannot be listed while Redis lacks one of
  -- these users: the one missing entry fails the whole read, the store refuses to look up more than
  -- 500, and the list fails. A pipeline of `GET`s of which Redis lacks one returns an error, as
  -- go-redis says.
  pub get_followers_long :
      (user_id id : ℤ) (ids : List ℤ) (s s' : S)
      → is_nonpos user_id ≡ false
      → fr.get_followers user_id s ≡ (ok ids, s')
      → 500 < length ids
      → In id ids
      → is_nonpos id ≡ false
      → held s' (user_data id) ≡ none
      → (get_followers
          (service db tx (as_cache c json rand client) pool sf hasher w fr tm)
          user_id
          s).0
        ≡ err (wrapped too_many_ids)
  unfolding get_followers get_follower_ids as_cache get_lists
  get_followers_long user_id id [] s s' valid listed long i known lacks =
      absurd (omega (arith, long))
  get_followers_long user_id id (j ∷ ids) s s' valid listed long i known lacks =
      let (e, s'', missed) =
        get_many_missed held json user_data (λ u. u.id) (λ j. none) client law (j ∷ ids) id s' i
          known lacks in
      rw valid (
        rw listed (
          rw
            (get_info_lists_long db tx (as_cache c json rand client) pool sf hasher w (j ∷ ids) s'
              s'' e long missed)
            refl))
