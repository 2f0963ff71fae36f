-- ===== src/Service/TimeLine.antt =====
-- internal/service/timeline_serive.go
pub mod Home
pub mod Forward
use aita.Common.{
  ℕ, suc, ◌/◌, ◌<◌, ℤ, pos, is_nonpos, String, Bool, true, false, ◌&&◌, ◌||◌, Option, none, some,
  List, [], ◌∷◌, ◌++◌, length, ltb, nat_eq, sub_ℕ, if◌then◌else◌,
}
use aita.Errcode.{Error, tweet_not_found, user_not_found}
use aita.Exec.{Result, Exec, ◌>>=◌, ◌>>◌, pure, fail, wrap_err, Attempt, returned, failed, attempt}
use aita.Models.{Time}
use aita.Dto.Tweet.{TweetRecord}
use aita.Dto.User.{is_negative}
use aita.Pkg.Pool.{Pool, ignore}
use aita.Pkg.Singleflight.{Group, Waits, get_data_with_sf}

pub record TimeLineRepository (S : Type 0) : Type 0 where
  pub push : ℤ → List ℤ → Time → Exec S Unit
  pub get_home_time_line : ℤ → ℤ → ℤ → Exec S (List ℤ)
  pub recall : ℤ → List ℤ → Exec S Unit
  pub backfill : ℤ → List TweetRecord → Exec S Unit

pub record TweetProvider (S : Type 0) : Type 0 where
  pub get_tweets : List ℤ → Exec S (List TweetRecord)
  pub get_my_tweets : ℤ → ℤ → ℤ → Exec S (List TweetRecord)

-- The closure that the service submits to the pool.
pub data Task : Type 0 where
  backfill_home : ℤ → List TweetRecord → Task

pub data Key : Type 0 where
  rebuild_key : ℤ → Key

abbrev pub Flown : Key → Type 0
Flown (rebuild_key user) = List TweetRecord

-- A failed rebuild is logged, and adds nothing.
abbrev additional : Attempt (List TweetRecord) → List TweetRecord
additional (returned ts) = ts
additional (failed e) = []

-- `err != nil || (page == 0 && len(ids) < size/2)`
abbrev is_short : ℤ → ℕ → Attempt (List ℤ) → Bool
is_short page size (failed e) = true
is_short (pos p) size (returned ids) = nat_eq p 0 && ltb (length ids) (size / 2)
is_short page size (returned ids) = false

abbrev ids_of : Attempt (List ℤ) → List ℤ
ids_of (returned ids) = ids
ids_of (failed e) = []

module _ {S : Type 0} (repo : TimeLineRepository S) where
  -- The body of the closure.
  unfoldable pub run_task : Task → Exec S Unit
  run_task (backfill_home user_id ts) = ignore (repo.backfill user_id ts)

module _ {S : Type 0} (repo : TimeLineRepository S) (tweets : TweetProvider S) (pool : Pool S Task)
    (sf : Group S Flown) where
  -- Fanout
  unfoldable pub fanout : ℤ → List ℤ → Time → Exec S Unit
  fanout tweet_id [] created_at = if is_nonpos tweet_id then fail tweet_not_found else pure tt
  fanout tweet_id (id ∷ ids) created_at =
      if is_nonpos tweet_id
      then fail tweet_not_found
      else wrap_err (repo.push tweet_id (id ∷ ids) created_at)

  -- Forward
  unfoldable pub forward : ℤ → List ℤ → Exec S Unit
  forward tweet_id [] = if is_nonpos tweet_id then fail tweet_not_found else pure tt
  forward tweet_id (id ∷ ids) =
      if is_nonpos tweet_id
      then fail tweet_not_found
      else wrap_err (repo.recall tweet_id (id ∷ ids))

  -- Backfill
  unfoldable pub backfill : ℤ → List TweetRecord → Exec S Unit
  backfill user_id [] = pure tt
  backfill user_id (t ∷ ts) = wrap_err (repo.backfill user_id (t ∷ ts))

  abbrev queue_backfill : ℤ → List TweetRecord → Exec S (List TweetRecord)
  queue_backfill user_id [] = pure []
  queue_backfill user_id (t ∷ ts) = do
    ignore (pool.submit (backfill_home user_id (t ∷ ts)))
    pure (t ∷ ts)

  -- The function of the flight: the user's own tweets, as many as the page lacks.
  unfoldable pub rebuild : ℤ → ℤ → ℤ → Exec S (List TweetRecord)
  rebuild user_id page lacking = do
    my_tweets ← tweets.get_my_tweets user_id page lacking
    queue_backfill user_id my_tweets

  abbrev maybe_rebuild : Bool → Waits → ℤ → ℤ → ℤ → Exec S (List TweetRecord)
  maybe_rebuild false w user_id page lacking = pure []
  maybe_rebuild true w user_id page lacking = do
    got ← attempt (get_data_with_sf w sf (rebuild_key user_id) (rebuild user_id page lacking))
    pure (additional got)

  abbrev home_page : Waits → ℤ → ℤ → ℕ → Exec S (List TweetRecord)
  home_page w user_id page size = do
    got ← attempt (repo.get_home_time_line user_id page (pos size))
    extra ← maybe_rebuild (is_short page size got) w user_id page (sub_ℕ size (length (ids_of got)))
    records ← tweets.get_tweets (ids_of got)
    pure (records ++ extra)

  abbrev sized : Waits → ℤ → ℤ → ℤ → Exec S (List TweetRecord)
  sized w user_id page (pos (suc n)) =
      if is_negative page then pure [] else home_page w user_id page (suc n)
  sized w user_id page _ = pure []

  -- GetHomeTimeLine
  unfoldable pub get_home_time_line : Waits → ℤ → ℤ → ℤ → Exec S (List TweetRecord)
  unfolding get_data_with_sf rebuild
  get_home_time_line w user_id page size =
      if is_nonpos user_id then fail user_not_found else sized w user_id page size
