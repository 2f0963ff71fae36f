-- ===== src/Tests/CachedUsers.antt =====
-- Users through a cache that has one of them.
use aita.Common.{
  ℤ, pos, int_eq, String, ◌≡◌, refl, Bool, true, false, none, some, [], ◌∷◌, if◌then◌else◌, arith,
}
use aita.Exec.{ok}
use aita.Models.{UserInfo}
use aita.Pkg.Json.{Json}
use aita.Pkg.Redis.{user_data}
use aita.Cache.Batch.Sound.{IsFresh}
use aita.Cache.User.{as_cache}
use aita.Cache.User.Sound.{get_base_infos_through}
use aita.Repository.Batch.{collect}
use aita.Repository.User.{id_of, slim_of, get_base_infos}
use aita.Tests.Caches.{codec}
use aita.Tests.Cached.{cached, kept, rand}
use aita.Tests.Memory.{memory, answering}
use aita.Tests.Wirings.{alice, truth, store, found, answers, pool, flights}

abbrev json : Json UserInfo
json = record { marshal = λ i. ok "user"; unmarshal = λ v. ok alice }

fresh : IsFresh (λ s k. s k) json user_data id_of truth kept
fresh = record { entry = λ id v t h e. by_test id v t (int_eq (pos 7) id) refl h e }
  where
    by_test :
        (id : ℤ) (v : String) (t : UserInfo) (b : Bool)
        → int_eq (pos 7) id ≡ b
        → cached b ≡ some v
        → ok alice ≡ ok t
        → (if b then some alice else none) ≡ some t
    by_test id v t true same h e = ground (arith, e)
    by_test id v t false apart h e = cc

get_base_infos_through_example :
    (get_base_infos store
      (as_cache codec json rand memory)
      pool
      flights
      (pos 7 ∷ pos 7 ∷ [])
      kept).0
    ≡ ok (collect slim_of truth (pos 7 ∷ pos 7 ∷ []))
get_base_infos_through_example =
    get_base_infos_through (λ s k. s k) json truth memory answering codec rand store pool flights
      (pos 7 ∷ pos 7 ∷ []) kept fresh (λ ids s' short. (found ids, s', refl, answers ids))
      (λ t s'. cc)
