-- ===== src/Db/Tweet/Laws.antt =====
-- What the statements of internal/db/tweet_store.go mean for the layers above it.
use aita.Common.{
  ℕ, zero, suc, ◌≤◌, Bool-cases, inl, inr, ℤ, pos, ◌*ℤ◌, wrap_int, is_nonpos, ◌≡◌, ◌∙◌, refl, false,
  some, ap,
}
use aita.Errcode.{Error, wrapped, sentinel, invalid_user_id}
use aita.Exec.{ok, err, Exec, ◌>>◌, wrap_err}
use aita.Models.{Tweet}
use aita.Dto.Tweet.{new_tweet_record}
use aita.Dto.TimeLine.{action_delete}
use aita.Pkg.Pool.{Pool, ignore}
use aita.Pkg.Singleflight.{Group, calm}
use aita.Repository.Tweet.{
  TweetCache, Task, Flown, tweet_key, backfill, get, delete, my_tweets_key, get_tweets_by_author,
  as_interface,
}
use aita.Service.Tweet.{MessageSender, remove_tweet, get_my_tweets}
use aita.Service.Tweet.Laws.{remove_tweet_own, get_my_tweets_bounds}
use aita.Db.Driver.{rows, failure, DriverError}
use aita.Db.Tweet.{
  SelectedTweet, TweetTable, listed, driver_failure, ids_by_author_query, get_tweet_by_tweet_id,
  get_tweet_ids_by_author, as_store,
}

-- A flight that is not shared.
pub record IsAlone {S K : Type 0} {V : K → Type 0} (sf : Group S V) : Type 0 where
  pub runs : (key : K) (fn : Exec S (V key)) (s : S) → sf.do_chan key fn s ≡ fn s

-- The record that `Get` makes of a selected row.
abbrev pub unidentified : SelectedTweet → Tweet
unidentified row = record {
  id = pos 0;
  user_id = row.user_id;
  content = row.content;
  image_url = row.image_url;
  created_at = row.created_at;
  updated_at = row.updated_at;
  is_edited = row.is_edited;
}

module _ {S : Type 0} (db : TweetTable S) (cache : TweetCache S) (pool : Pool S Task)
    (sf : Group S Flown) (alone : IsAlone sf) where
  module _ (tweet_id : ℤ) (s s' s'' s3 : S) (row : SelectedTweet) (e : Error)
      (missed : cache.get_tweet tweet_id s ≡ (err e, s'))
      (stored : db.select_by_id tweet_id s' ≡ (rows row, s''))
      (queued : pool.submit (backfill (unidentified row)) s'' ≡ (ok tt, s3)) where
    -- A tweet that is read from the table, past the cache, comes back without its ID, whatever ID
    -- was asked for.
    pub get_unidentified :
        get (as_store db) cache pool sf calm tweet_id s
        ≡ (ok (new_tweet_record (some (unidentified row))), s3)
    unfolding get as_store get_tweet_by_tweet_id
    get_unidentified = rw missed (rw (alone.runs (tweet_key tweet_id)) (rw stored (rw queued)))

    -- The removal of a tweet that is read from the table, after the cache has answered an error,
    -- which is how it tells of a miss, is announced with the tweet ID 0, whatever tweet was
    -- removed.
    pub remove_tweet_unidentified :
        (sender : MessageSender S) (user_id : ℤ)
        → is_nonpos user_id ≡ false
        → is_nonpos tweet_id ≡ false
        → row.user_id ≡ user_id
        → remove_tweet (as_interface (as_store db) cache pool sf calm) sender tweet_id user_id s
          ≡ (do
            wrap_err (delete (as_store db) cache pool sf tweet_id)
            ignore (sender.async_to_mq (pos 0) row.user_id row.created_at action_delete))
              s3
    remove_tweet_unidentified sender user_id caller target own =
        remove_tweet_own (as_interface (as_store db) cache pool sf calm) sender tweet_id user_id s
          s3 (new_tweet_record (some (unidentified row))) caller target
          (unfold as_interface in rw get_unidentified) (unfold new_tweet_record in own)
        ∙ (unfold as_interface new_tweet_record in refl)

  refused_ids :
      (a z o : ℤ) (s : S) (e : DriverError)
      → (db.query_ids ids_by_author_query a z o s).0 ≡ failure e
      → (listed (db.query_ids ids_by_author_query a z o s).0) ≡ err driver_failure
  refused_ids a z o s e h = ap listed h

  by_author_fails :
      (user_id : ℤ) (p z : ℕ) (s : S)
      → 1 ≤ z
      → ((a z o : ℤ) (t : S)
          → (e : DriverError) × ((db.query_ids ids_by_author_query a z o t).0 ≡ failure e))
      → (get_tweets_by_author (as_store db) cache pool sf calm user_id (pos p) (pos z) s).0
        ≡ err driver_failure
  unfolding get_tweets_by_author as_store get_tweet_ids_by_author
  by_author_fails user_id p zero s h refused = elim h [ ]
  by_author_fails user_id p (suc z) s h refused =
      let (x, f) = refused user_id (pos (suc z)) (wrap_int (pos p *ℤ pos (suc z))) s in
      rw (alone.runs (my_tweets_key user_id (pos p) (pos (suc z))))
        (refused_ids user_id (pos (suc z)) (wrap_int (pos p *ℤ pos (suc z))) s x f)

  -- The statement of `GetTweetIDsByAuthor` is not SQL: while the server refuses it, every request
  -- for a list of one's own tweets fails.
  pub get_my_tweets_unavailable :
      (sender : MessageSender S) (user_id page size : ℤ) (s : S)
      → ((a z o : ℤ) (t : S)
          → (e : DriverError) × ((db.query_ids ids_by_author_query a z o t).0 ≡ failure e))
      → (r : Error) × ((get_my_tweets
            (as_interface (as_store db) cache pool sf calm)
            sender
            user_id
            page
            size
            s).0
          ≡ err r)
  unfolding get_my_tweets as_interface
  get_my_tweets_unavailable sender user_id page size s refused =
      elim (Bool-cases (is_nonpos user_id)) [
        | inl bad ↦ (sentinel invalid_user_id, rw bad)
        | inr caller ↦
            let repo = as_interface (as_store db) cache pool sf calm in
            let (p, z, e, low, _, _) = get_my_tweets_bounds repo sender user_id page size caller in
            (wrapped driver_failure, rw e (rw (by_author_fails user_id p z s low refused)))
      ]
