-- ===== src/Service/TimeLine/Home.antt =====
-- What a user sees on the first page: internal/service/timeline_serive.go.
use mathlib.Core.List.{append-nil}
use aita.Common.{
  ℕ, suc, ◌/◌, ℤ, pos, is_nonpos, sub_ℕ, ◌≡◌, false, List, length, ltb, Bool-cases, inl, inr,
}
use aita.Errcode.{Error}
use aita.Exec.{ok, err, Exec}
use aita.Dto.Tweet.{TweetRecord}
use aita.Pkg.Pool.{Pool}
use aita.Pkg.Singleflight.{Group, calm}
use aita.Service.TimeLine.{
  TimeLineRepository, TweetProvider, Task, Flown, Key, rebuild_key, rebuild, get_home_time_line,
}

module _ {S : Type 0} (repo : TimeLineRepository S) (tweets : TweetProvider S) (pool : Pool S Task)
    (sf : Group S Flown) where
  -- While the user's own tweets cannot be had, a first page is what the timeline has, and no more.
  pub get_home_time_line_cached :
      (user_id : ℤ) (n : ℕ) (ids : List ℤ) (records : List TweetRecord) (e : Error) (s s' s'' : S)
      → is_nonpos user_id ≡ false
      → repo.get_home_time_line user_id (pos 0) (pos (suc n)) s ≡ (ok ids, s')
      → ((key : Key) (fn : Exec S (Flown key)) (t : S) → sf.do_chan key fn t ≡ fn t)
      → tweets.get_my_tweets user_id (pos 0) (sub_ℕ (suc n) (length ids)) s' ≡ (err e, s'')
      → ((t : S) → tweets.get_tweets ids t ≡ (ok records, t))
      → (get_home_time_line repo tweets pool sf calm user_id (pos 0) (pos (suc n)) s).0 ≡ ok records
  unfolding get_home_time_line
  get_home_time_line_cached user_id n ids records e s s' s'' caller page alone mine shown =
      elim (Bool-cases (ltb (length ids) (suc n / 2))) [
        | inl short ↦
            rw (caller, page)
              (rw short (
                rw (alone (rebuild_key user_id))
                  (unfold rebuild in rw mine (rw shown (rw append-nil)))))
        | inr full ↦ rw (caller, page) (rw full (rw shown (rw append-nil)))
      ]
