-- ===== src/Cache/User/Sound.antt =====
-- What `GetBaseInfos` answers over internal/cache/user_cache.go.
use aita.Common.{◌≤◌, length, ℤ, String, ◌≡◌, ◌≢◌, ap, subst, Option, List}
use aita.Exec.{ok, panic}
use aita.Models.{UserInfo}
use aita.Dto.TimeLine.{Codec}
use aita.Pkg.Json.{Json}
use aita.Pkg.Pool.{Pool}
use aita.Pkg.Redis.{Key, user_data, Client, IsAnswering}
use aita.Pkg.Singleflight.{Group}
use aita.Pkg.Utils.{Rand}
use aita.Cache.Batch.Sound.{IsFresh, IsFine, get_many-IsFine}
use aita.Cache.User.{get_lists, as_cache}
use aita.Repository.Batch.{collect}
use aita.Repository.Batch.Agree.{Answers}
use aita.Repository.User.{UserStore, InfoMap, Task, Flown, id_of, slim_of, get_base_infos}
use aita.Repository.User.Infos.{get_base_infos_lem}

module _ {S : Type 0} (held : S → Key → Option String) (json : Json UserInfo) (truth : InfoMap)
    (client : Client S) (law : IsAnswering held client) (c : Codec) (rand : Rand S) where
  -- Through the cache in Redis too, `GetBaseInfos` answers the users of the table for the IDs that
  -- it was asked for, in their order, and nothing for an ID without one: if the users that Redis
  -- holds are the table's, a pipeline of `GET`s without an error answers them in their order, the
  -- store answers every list of IDs that is no longer, and the pool does not panic.
  pub get_base_infos_through :
      (store : UserStore S) (pool : Pool S Task) (sf : Group S Flown) (ids : List ℤ) (s : S)
      → IsFresh held json user_data id_of truth s
      → ((js : List ℤ) (s' : S)
          → length js ≤ length ids
          → (rows : List UserInfo) × (s'' : S) × (store.get_names_by_ids js s' ≡ (ok rows, s''))
            × Answers id_of truth js rows)
      → ((t : Task) (s' : S) → (pool.submit t s').0 ≢ panic)
      → (get_base_infos store (as_cache c json rand client) pool sf ids s).0
        ≡ ok (collect slim_of truth ids)
  unfolding as_cache get_lists
  get_base_infos_through store pool sf ids s fresh stored calm =
      get_base_infos_lem store (as_cache c json rand client) pool sf truth ids s
        (λ got s' h.
          subst (IsFine held json user_data id_of truth client law) (ap (λ p. p.0) h)
            (get_many-IsFine held json user_data id_of truth client law ids s fresh))
        stored calm
