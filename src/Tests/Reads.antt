-- ===== src/Tests/Reads.antt =====
-- Reads through the cache and the store, of a table with one tweet and two users.
use aita.Pkg.Json.{Json}
use aita.Pkg.Utils.{Rand}
use aita.Pkg.Redis.{redis_nil, is_redis_nil}
use aita.Cache.Tweet.{get_tweet, as_cache}
use aita.Tests.Memory.{Memory, memory}
use aita.Common.{
  ℤ, pos, int_eq, int_eq_iff, ◌≡◌, refl, inl, inr, Bool, true, false, ◌||◌, Bool-cases, In, none,
  some, List, [], ◌∷◌, arith, if◌then◌else◌,
}
use aita.Exec.{ok, err, ◌>>◌, wrap_err}
use aita.Models.{Tweet}
use aita.Dto.TimeLine.{action_delete}
use aita.Pkg.Pool.{Pool, ignore}
use aita.Pkg.Singleflight.{Group, calm}
use aita.Repository.Tweet
use aita.Repository.Tweet.{TweetStore, TweetCache, TweetMap, Task, Flown, id_of, delete}
use aita.Repository.Batch.Agree.{Answers}
use aita.Service.Tweet.{MessageSender, remove_tweet}
use aita.Db.Driver.{rows, failure, other}
use aita.Db.Tweet.{SelectedTweet, TweetTable, as_store}
use aita.Db.Tweet.Laws.{IsAlone, remove_tweet_unidentified}

abbrev pub tweet : Tweet
tweet = record {
  id = pos 3;
  user_id = pos 7;
  content = "hello";
  image_url = none;
  created_at = 1000;
  updated_at = 1000;
  is_edited = false;
}

abbrev pub truth : TweetMap
truth id = if int_eq (pos 3) id then some tweet else none

abbrev has : ℤ → List ℤ → Bool
has id [] = false
has id (j ∷ js) = int_eq id j || has id js

abbrev pub answer : List ℤ → List Tweet
answer ids = if has (pos 3) ids then tweet ∷ [] else []

In-has : (id : ℤ) (ids : List ℤ) → In id ids → has id ids ≡ true
In-has id [] i = elim i [ ]
In-has id (j ∷ js) (inl e) = rw ((int_eq_iff id j).1 e) refl
In-has id (j ∷ js) (inr i) = elim (Bool-cases (int_eq id j)) [
  | inl same ↦ rw same refl
  | inr apart ↦ rw apart (In-has id js i)
]

truth-id : (id : ℤ) (t : Tweet) → truth id ≡ some t → (pos 3 ≡ id) × (tweet ≡ t)
truth-id id t h = by_test (int_eq (pos 3) id) refl h
  where
    by_test :
        (b : Bool)
        → int_eq (pos 3) id ≡ b
        → (if b then some tweet else none) ≡ some t
        → (pos 3 ≡ id) × (tweet ≡ t)
    by_test true same e = ((int_eq_iff (pos 3) id).0 same, ground arith)
    by_test false apart e = cc

pub answers : (ids : List ℤ) → Answers id_of truth ids (answer ids)
answers ids = elim (Bool-cases (has (pos 3) ids)) [
  | inl there ↦
      rw there
        (record { sound = (refl, tt); complete = λ id t i h. ground (arith, truth-id id t h) })
  | inr missing ↦ rw missing (record {
    sound = tt;
    complete = λ id t i h. absurd (cc (In-has id ids i, missing, (truth-id id t h).0));
  })
]

abbrev pub store : {S : Type 0} → TweetStore S
store = record {
  create_tweet = λ t s. (ok (some t), s);
  get_tweet_by_tweet_id = λ id s. (ok (truth id), s);
  update_content = λ c id s. (ok none, s);
  delete_tweet = λ id s. (ok tt, s);
  get_tweets_by_tweet_ids = λ ids s. (ok (answer ids), s);
  get_tweet_ids_by_author = λ author page size s. (ok [], s);
}

-- A Redis that is empty.
abbrev empty : Memory
empty k = none

abbrev tweet_json : Json Tweet
tweet_json = record { marshal = λ t. ok "tweet"; unmarshal = λ v. ok tweet }

abbrev rand : Rand Memory
rand = record { draw = λ n s. (ok 0, s); nine_tenths = λ n. n; two_tenths = λ n. 0 }

abbrev cache : TweetCache Memory
cache = as_cache tweet_json rand memory

abbrev pub pool : {S : Type 0} → Pool S Task
pool = record { submit = λ t s. (ok tt, s) }

abbrev pub flights : {S : Type 0} → Group S Flown
flights = record { do_chan = λ key fn. fn }

abbrev row : SelectedTweet
row = record {
  user_id = pos 7;
  content = "hello";
  image_url = none;
  created_at = 1000;
  updated_at = 1000;
  is_edited = false;
}

abbrev table : TweetTable Memory
table = record {
  insert = λ user content url s. (rows tweet, s);
  select_by_id = λ id s. (rows row, s);
  update_content = λ c id s. (rows tweet, s);
  delete_by_id = λ id s. (rows 1, s);
  select_any = λ ids s. (rows (answer ids), s);
  query_ids = λ text author size offset s. (failure other, s);
}

alone : IsAlone {S = Memory} flights
alone = record { runs = λ key fn s. refl }

abbrev sender : MessageSender Memory
sender = record { async_to_mq = λ id author at action s. (ok tt, s) }

missed : cache.get_tweet (pos 3) empty ≡ (err redis_nil, empty)
unfolding get_tweet as_cache is_redis_nil
missed = refl

remove_tweet_unidentified_example :
    remove_tweet
      (aita.Repository.Tweet.as_interface (as_store table) cache pool flights calm)
      sender
      (pos 3)
      (pos 7)
      empty
    ≡ (do
      wrap_err (delete (as_store table) cache pool flights (pos 3))
      ignore (sender.async_to_mq (pos 0) (pos 7) 1000 action_delete))
        empty
remove_tweet_unidentified_example =
    remove_tweet_unidentified table cache pool flights alone (pos 3) empty empty empty empty row
      redis_nil missed refl refl sender (pos 7) refl refl refl
