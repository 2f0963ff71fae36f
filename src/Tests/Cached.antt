-- ===== src/Tests/Cached.antt =====
-- Tweets through a cache that has one of them.
use aita.Common.{
  ℤ, pos, int_eq, String, ◌≡◌, refl, Bool, true, false, Option, none, some, [], ◌∷◌, arith,
  if◌then◌else◌,
}
use aita.Exec.{ok}
use aita.Models.{Tweet}
use aita.Pkg.Json.{Json}
use aita.Pkg.Redis.{tweet_content, user_data}
use aita.Pkg.Utils.{Rand}
use aita.Cache.Tweet.{as_cache}
use aita.Cache.Batch.Sound.{IsFresh}
use aita.Cache.Tweet.Sound.{multi_get_through}
use aita.Repository.Batch.{collect}
use aita.Repository.Tweet.{id_of, record_of, multi_get}
use aita.Tests.Reads.{tweet, truth, store, answer, answers, pool, flights}
use aita.Tests.Memory.{Memory, memory, answering}

abbrev tweet_json : Json Tweet
tweet_json = record { marshal = λ t. ok "tweet"; unmarshal = λ v. ok tweet }

-- Tweet 3 is cached, and user 7.
abbrev pub cached : Bool → Option String
cached there = if there then some "tweet" else none

abbrev pub kept : Memory
kept (tweet_content id) = cached (int_eq (pos 3) id)
kept (user_data id) = cached (int_eq (pos 7) id)
kept _ = none

fresh : IsFresh (λ s k. s k) tweet_json tweet_content id_of truth kept
fresh = record { entry = λ id v t h e. by_test id v t (int_eq (pos 3) id) refl h e }
  where
    by_test :
        (id : ℤ) (v : String) (t : Tweet) (b : Bool)
        → int_eq (pos 3) id ≡ b
        → cached b ≡ some v
        → ok tweet ≡ ok t
        → (if b then some tweet else none) ≡ some t
    by_test id v t true same h e = ground (arith, e)
    by_test id v t false apart h e = cc

abbrev pub rand : Rand Memory
rand = record { draw = λ n s. (ok 0, s); nine_tenths = λ n. n; two_tenths = λ n. 0 }

multi_get_through_example :
    (multi_get store (as_cache tweet_json rand memory) pool flights (pos 3 ∷ pos 3 ∷ []) kept).0
    ≡ ok (collect record_of truth (pos 3 ∷ pos 3 ∷ []))
multi_get_through_example =
    multi_get_through (λ s k. s k) tweet_json truth memory answering rand store pool flights
      (pos 3 ∷ pos 3 ∷ []) kept fresh (λ ids s' short. (answer ids, s', refl, answers ids))
      (λ t s'. cc)
