-- ===== src/Service/Tweet/Laws.antt =====
-- Who may change a tweet, and what the followers are told: internal/service/tweet_service.go.
use aita.Common.{
  ℕ, zero, ◌+◌, ◌≤◌, ℤ, pos, negsuc, is_nonpos, int_eq, int_eq_ne, int_eq_iff, String, str_eq,
  str_eq-false, suc, ◌≡◌, ◌≢◌, refl, inl, inr, false, Option, some, Bool-cases, leb→le, leb, arith,
}
use aita.Exec.{Result, ok, err, panic, ◌>>=◌, ◌>>◌, wrap_err}
use aita.Models.{Time}
use aita.Dto.Tweet.{TweetRecord, can_be_updated, editwindow}
use aita.Dto.TimeLine.{action_create, action_delete}
use aita.Pkg.Pool.{ignore}
use aita.Service.Tweet.{
  TweetRepository, MessageSender, mine, others, initial_tweet, post_tweet, fetch_tweet, to_my_tweet,
  edit_tweet, remove_tweet, get_my_tweets, clamp_page, clamp_size, tweets_of,
}

-- What an edit needs of the tweet that the lookup found.
pub record MayEdit (now : Time) (new_content : String) (user_id : ℤ) (tweet : TweetRecord)
    : Type 0 where
  pub owner : tweet.user_id ≡ user_id
  pub in_window : now ≤ tweet.created_at + editwindow
  pub differs : tweet.content ≢ new_content

page_in_range : (page : ℤ) → (p : ℕ) × (clamp_page page ≡ pos p)
page_in_range (pos n) = (n, refl)
page_in_range (negsuc n) = (0, refl)

size_in_range :
    (size : ℤ)
    → (z : ℕ) × (clamp_size size ≡ pos z)
      × (1 ≤ z)
      × (z ≤ 100)
      × ((n : ℕ) → size ≡ pos n → 1 ≤ n → n ≤ 100 → z ≡ n)
size_in_range (negsuc n) = (20, refl, omega arith, omega arith, λ n e. cc)
size_in_range (pos zero) = (20, refl, omega arith, omega arith, λ n e h. ground arith)
size_in_range (pos (suc n)) = elim (Bool-cases (leb (suc n) 100)) [
  | inl fits ↦ (suc n, ground arith, omega arith, leb→le _ _ fits, λ m e h k. ground arith)
  | inr over ↦ (20, ground arith, omega arith, omega arith, λ m e h k. ground arith)
]

module _ {S : Type 0} (repo : TweetRepository S) (sender : MessageSender S) where
  module _ (tweet_id user_id : ℤ) (s s' : S) (tweet : TweetRecord)
      (caller : is_nonpos user_id ≡ false) (target : is_nonpos tweet_id ≡ false)
      (found : repo.get tweet_id s ≡ (ok (some tweet), s')) where
    to_my_tweet_own :
        tweet.user_id ≡ user_id → to_my_tweet repo sender tweet_id user_id s ≡ (ok (mine tweet), s')
    unfolding to_my_tweet fetch_tweet
    to_my_tweet_own own = rw (caller, target, found) (rw ((int_eq_iff tweet.user_id user_id).1 own))

    to_my_tweet_others :
        tweet.user_id ≢ user_id
        → to_my_tweet repo sender tweet_id user_id s ≡ (ok (others tweet), s')
    unfolding to_my_tweet fetch_tweet
    to_my_tweet_others other =
        rw (caller, target, found) (rw (int_eq_ne tweet.user_id user_id other))

    -- The owner's removal is the repository's deletion and then the announcement of it, with the
    -- numbers of the record that was looked up; the announcement's error is dropped.
    pub remove_tweet_own :
        tweet.user_id ≡ user_id
        → remove_tweet repo sender tweet_id user_id s
          ≡ (do
            wrap_err (repo.delete tweet_id)
            ignore (sender.async_to_mq tweet.id tweet.user_id tweet.created_at action_delete))
              s'
    unfolding remove_tweet
    remove_tweet_own own = rw (caller, to_my_tweet_own own)

    -- An edit that the tweet does not allow (another's, the same content, after ten minutes) leaves
    -- the state as the lookup left it, for every content that is not empty.
    pub edit_tweet_frame :
        (now : Time) (new_content : String)
        → str_eq new_content "" ≡ false
        → ¬ MayEdit now new_content user_id tweet
        → (edit_tweet repo sender now new_content tweet_id user_id s).1 ≡ s'
    unfolding edit_tweet can_be_updated
    edit_tweet_frame now new_content nonempty refused =
        elim (Bool-cases (int_eq tweet.user_id user_id)) [
          | inl own ↦
              let owner : tweet.user_id ≡ user_id = (int_eq_iff tweet.user_id user_id).0 own in
              rw (caller, nonempty, to_my_tweet_own owner, edit_tweet)
                (elim (Bool-cases (str_eq tweet.content new_content)) [
                  | inl same ↦ rw same
                  | inr differs ↦ elim (Bool-cases (leb now (tweet.created_at + editwindow))) [
                    | inl early ↦ absurd (
                        refused (record {
                          owner = owner;
                          in_window = leb→le _ _ early;
                          differs = str_eq-false tweet.content new_content differs;
                        }))
                    | inr late ↦ rw (differs, late)
                  ]
                ])
          | inr other ↦ rw (
            caller,
            nonempty,
            to_my_tweet_others (λ e. cc ((int_eq_iff tweet.user_id user_id).1 e, other)),
            edit_tweet,
          )
        ]

    -- Of a removal of another user's tweet `RemoveTweet` reports no error, and nothing is removed.
    pub remove_tweet_others :
        tweet.user_id ≢ user_id → remove_tweet repo sender tweet_id user_id s ≡ (ok tt, s')
    unfolding remove_tweet
    remove_tweet_others other = rw (caller, to_my_tweet_others other)

  -- A post that the repository saved is announced with the saved row's numbers, and is a success
  -- whether or not the announcement could be queued.
  pub post_tweet_saved :
      (user_id : ℤ) (content : String) (image_url : Option String) (s s' s'' : S)
      (saved : TweetRecord) (r : Result (Unit {0}))
      → is_nonpos user_id ≡ false
      → str_eq content "" ≡ false
      → repo.create (initial_tweet user_id content image_url) s ≡ (ok (some saved), s')
      → sender.async_to_mq saved.id saved.user_id saved.created_at action_create s' ≡ (r, s'')
      → r ≢ panic
      → post_tweet repo sender user_id content image_url s ≡ (ok saved, s'')
  unfolding post_tweet
  post_tweet_saved user_id content image_url s s' s'' saved (ok x) caller nonempty c q calm =
      rw (caller, nonempty, c, q)
  post_tweet_saved user_id content image_url s s' s'' saved (err e) caller nonempty c q calm =
      rw (caller, nonempty, c, q)
  post_tweet_saved user_id content image_url s s' s'' saved panic caller nonempty c q calm =
      absurd (calm refl)

  -- Whatever page and size a caller asks for, the repository is asked for a page that is not
  -- negative and for 1 to 100 tweets, and for the size that was asked for where that is in range.
  pub get_my_tweets_bounds :
      (user_id page size : ℤ)
      → is_nonpos user_id ≡ false
      → (p z : ℕ) × (get_my_tweets repo sender user_id page size ≡ (do
        ids ← wrap_err (repo.get_tweets_by_author user_id (pos p) (pos z))
        tweets_of repo sender ids))
        × (1 ≤ z)
        × (z ≤ 100)
        × ((n : ℕ) → size ≡ pos n → 1 ≤ n → n ≤ 100 → z ≡ n)
  unfolding get_my_tweets
  get_my_tweets_bounds user_id page size caller =
      let (p, e) = page_in_range page in
      let (z, e', low, high, same) = size_in_range size in
      (p, z, rw (caller, e, e'), low, high, same)
