-- ===== src/Cache/TimeLine/Recall.antt =====
-- Whose timelines `RecallTweet` of internal/cache/timeline_cache.go reaches.
use aita.Common.{ℕ, zero, suc, ℤ, ◌≡◌, refl, ap, List, [], ◌∷◌, ◌++◌, map, length, arith}
use aita.Dto.TimeLine.{Codec}
use aita.Pkg.Redis.{Client, timeline, z_rem, exec_all}
use aita.Pkg.Utils.{Rand}
use aita.Cache.TimeLine.{first_of, recall_tweet}

first_of-++ : (n : ℕ) (xs rest : List ℤ) → length xs ≡ n → first_of n (xs ++ rest) ≡ first_of n xs
first_of-++ zero [] rest h = refl
first_of-++ zero (x ∷ xs) rest h = refl
first_of-++ (suc n) [] rest h = absurd (omega (arith, h))
first_of-++ (suc n) (x ∷ xs) rest h = ap (λ ys. x ∷ ys) (first_of-++ n xs rest (omega (arith, h)))

-- The users after the first thousand are left out.
module _ {S : Type 0} (c : Codec) (rand : Rand S) (client : Client S) where
  pub recall_tweet_first :
      (tweet_id : ℤ) (user_ids rest : List ℤ) (s : S)
      → length user_ids ≡ 1000
      → recall_tweet c rand client tweet_id (user_ids ++ rest) s
        ≡ recall_tweet c rand client tweet_id user_ids s
  unfolding recall_tweet
  recall_tweet_first tweet_id [] rest s h = absurd (omega (arith, h))
  recall_tweet_first tweet_id (x ∷ user_ids) rest s h =
      ap (λ ids. exec_all client (map (λ id. z_rem (timeline id) (c.format tweet_id)) (x ∷ ids)) s)
        (first_of-++ 999 user_ids rest (omega (arith, h)))
