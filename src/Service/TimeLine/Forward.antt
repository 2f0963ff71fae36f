-- ===== src/Service/TimeLine/Forward.antt =====
-- Whose timelines a removed tweet leaves: internal/service/timeline_serive.go over
-- internal/repository/timeline_repository.go and internal/cache/timeline_cache.go.
use aita.Common.{
  ℤ, is_nonpos, ◌≡◌, refl, ap, List, [], ◌∷◌, ◌++◌, inl, inr, Bool-cases, length, arith,
}
use aita.Exec.{wrap}
use aita.Dto.TimeLine.{Codec}
use aita.Pkg.Pool.{Pool}
use aita.Pkg.Redis.{Client}
use aita.Pkg.Singleflight.{Group}
use aita.Pkg.Utils.{Rand}
use aita.Cache.TimeLine.{as_cache}
use aita.Cache.TimeLine.Recall.{recall_tweet_first}
use aita.Repository.TimeLine.{as_interface, recall}
use aita.Service.TimeLine.{TweetProvider, Task, Flown, forward}

module _ {S : Type 0} (c : Codec) (rand : Rand S) (client : Client S) (tweets : TweetProvider S)
    (pool : Pool S Task) (sf : Group S Flown) where
  -- The recall of a tweet from the timelines of more than 1000 followers is the recall from the
  -- first 1000 of them.
  pub forward_first_thousand :
      (tweet_id : ℤ) (user_ids rest : List ℤ) (s : S)
      → length user_ids ≡ 1000
      → forward (as_interface (as_cache c rand client)) tweets pool sf tweet_id (user_ids ++ rest) s
        ≡ forward (as_interface (as_cache c rand client)) tweets pool sf tweet_id user_ids s
  unfolding forward as_interface as_cache recall
  forward_first_thousand tweet_id [] rest s h = absurd (omega (arith, h))
  forward_first_thousand tweet_id (x ∷ user_ids) rest s h = elim (Bool-cases (is_nonpos tweet_id)) [
    | inl nonpos ↦ rw nonpos refl
    | inr positive ↦ rw positive (
        ap (λ r. (wrap r.0, r.1))
          (recall_tweet_first c rand client tweet_id (x ∷ user_ids) rest s h))
  ]
