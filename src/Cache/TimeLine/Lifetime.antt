-- ===== src/Cache/TimeLine/Lifetime.antt =====
-- How long the timelines that internal/cache/timeline_cache.go writes live.
use aita.Common.{ℕ, ◌≤◌, ◌<◌, ℤ, ◌≡◌, subst, List, [], ◌∷◌, ◌++◌, All, arith}
use aita.Exec.{ok, pure, >>=-eq-ok}
use aita.Dto.TimeLine.{Codec}
use aita.Pkg.Redis.{Command, expire, Client}
use aita.Pkg.Utils.{Rand, IsBounded, get_random_expiration_bounds}
use aita.Cache.TimeLine.{push_commands, push_all, lifetime}

-- What the products with a float64 that is not above 1 give.
pub record IsShrinking {S : Type 0} (rand : Rand S) : Type 0 where
  pub nine : (n : ℕ) → rand.nine_tenths n ≤ n
  pub two : (n : ℕ) → rand.two_tenths n ≤ n

-- An `EXPIRE` of less than a second.
abbrev pub Brief : Command → Type 0
Brief (expire k ttl) = ttl < 1_000_000_000
Brief _ = Unit

module _ {S : Type 0} (c : Codec) (rand : Rand S) (client : Client S) where
  lifetime-lt :
      (s s' : S) (ttl : ℕ)
      → IsBounded rand
      → IsShrinking rand
      → lifetime c rand client s ≡ (ok ttl, s')
      → ttl < 1_000_000_000
  lifetime-lt s s' ttl bounded shrinking h =
      let (low, high) = get_random_expiration_bounds rand bounded 71 3 s ttl s' h in
      omega (arith, high, shrinking.nine 72, shrinking.two 72)

  -- Every time to live that `PushBatch` gives a timeline is less than a second, where a draw is
  -- below its bound and a product with 0.9 or 0.2 is not above its factor.
  pub push_all-Brief :
      (tweet_id score : ℤ) (user_ids : List ℤ) (s s' : S) (cs : List Command)
      → IsBounded rand
      → IsShrinking rand
      → push_all c rand client tweet_id score user_ids s ≡ (ok cs, s')
      → All Brief cs
  unfolding push_all
  push_all-Brief tweet_id score [] s s' cs bounded shrinking h = subst (All Brief) (same h) tt
    where
      same : pure [] s ≡ (ok cs, s') → [] ≡ cs
      same e = ground arith
  push_all-Brief tweet_id score (id ∷ user_ids) s s' cs bounded shrinking h =
      let (ttl, t, drawn, e) = >>=-eq-ok (lifetime c rand client) _ s h in
      let (rest, u, others, f) = >>=-eq-ok (push_all c rand client tweet_id score user_ids) _ t e in
      subst (All Brief) (same rest ttl u f) (
        tt,
        (
          tt,
          (
            lifetime-lt s t ttl bounded shrinking drawn,
            push_all-Brief tweet_id score user_ids t u rest bounded shrinking others,
          ),
        ),
      )
    where
      same :
          (rest : List Command) (ttl : ℕ) (u : S)
          → pure (push_commands c rand client tweet_id score id ttl ++ rest) u ≡ (ok cs, s')
          → push_commands c rand client tweet_id score id ttl ++ rest ≡ cs
      same rest ttl u e = ground arith
