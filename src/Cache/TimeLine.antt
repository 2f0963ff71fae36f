-- ===== src/Cache/TimeLine.antt =====
-- internal/cache/timeline_cache.go
pub mod Recall
pub mod Capped
pub mod Lifetime
use aita.Common.{
  ℕ, zero, suc, ℤ, pos, negsuc, leb_ℤ, String, Option, none, some, List, [], ◌∷◌, ◌++◌, map,
  if◌then◌else◌,
}
use aita.Errcode.{Error}
use aita.Exec.{Exec, ◌>>=◌, ◌>>◌, pure}
use aita.Models.{Time, Tweet}
use aita.Dto.TimeLine.{Codec}
use aita.Pkg.Redis.{
  timeline, Command, expire, z_add, z_rem, z_rem_range_by_rank, z_range_rev, Client, as_texts, ask,
  exec_all,
}
use aita.Pkg.Utils.{Rand, get_random_expiration}
use aita.Repository.TimeLine.{TimeLineCache}

abbrev pub add_parsed : ℤ × Option Error → List ℤ → List ℤ
add_parsed (id, none) rest = id ∷ rest
add_parsed (id, some e) rest = rest

-- The members that are numbers.
abbrev pub parsed : Codec → List String → List ℤ
parsed c [] = []
parsed c (member ∷ members) = add_parsed (c.parse_int member) (parsed c members)

-- `min(n, len(xs))` first elements.
abbrev pub first_of {ℓ} : {A : Type ℓ} → ℕ → List A → List A
first_of zero xs = []
first_of (suc n) [] = []
first_of (suc n) (x ∷ xs) = x ∷ first_of n xs

module _ {S : Type 0} (c : Codec) (rand : Rand S) (client : Client S) where
  -- The three commands for one user's timeline.
  abbrev pub push_commands : ℤ → ℤ → ℤ → ℕ → List Command
  push_commands tweet_id score id ttl =
      z_add (timeline id) ((score, tweet_id) ∷ [])
      ∷ z_rem_range_by_rank (timeline id) (pos 0) (negsuc 1000)
      ∷ expire (timeline id) ttl
      ∷ []

  -- The code writes 72 and 3, which are nanoseconds.
  abbrev lifetime : Exec S ℕ
  lifetime = get_random_expiration rand (pos 72) (pos 3)

  unfoldable pub push_all : ℤ → ℤ → List ℤ → Exec S (List Command)
  push_all tweet_id score [] = pure []
  push_all tweet_id score (id ∷ user_ids) = do
    ttl ← lifetime
    rest ← push_all tweet_id score user_ids
    pure (push_commands tweet_id score id ttl ++ rest)

  -- PushBatch
  unfoldable pub push_batch : ℤ → List ℤ → Time → Exec S Unit
  unfolding push_all
  push_batch tweet_id user_ids created_at = do
    commands ← push_all tweet_id (c.unix created_at) user_ids
    exec_all client commands

  abbrev pub recall_commands : ℤ → List ℤ → List Command
  recall_commands tweet_id user_ids =
      map (λ id. z_rem (timeline id) (c.format tweet_id)) (first_of 1000 user_ids)

  -- RecallTweet
  unfoldable pub recall_tweet : ℤ → List ℤ → Exec S Unit
  recall_tweet tweet_id [] = pure tt
  recall_tweet tweet_id (id ∷ user_ids) = exec_all client (recall_commands tweet_id (id ∷ user_ids))

  -- FindRange
  unfoldable pub find_range : ℤ → ℤ → ℤ → Exec S (List ℤ)
  find_range user_id start stop = if leb_ℤ stop start then pure [] else do
    res ← ask client as_texts (z_range_rev (timeline user_id) start stop)
    pure (parsed c res)

  abbrev pub backfill_commands : ℤ → List Tweet → ℕ → List Command
  backfill_commands user_id tweets ttl =
      map (λ t. z_add (timeline user_id) ((c.unix t.created_at, t.id) ∷ [])) tweets
      ++ z_rem_range_by_rank (timeline user_id) (pos 0) (negsuc 1000)
        ∷ expire (timeline user_id) ttl
        ∷ []

  -- BackfillIDs
  unfoldable pub backfill_ids : ℤ → List Tweet → Exec S Unit
  backfill_ids user_id [] = pure tt
  backfill_ids user_id (t ∷ tweets) = do
    ttl ← lifetime
    exec_all client (backfill_commands user_id (t ∷ tweets) ttl)

  -- The cache as the interface of the repository.
  unfoldable pub as_cache : TimeLineCache S
  as_cache = record {
    push_batch = push_batch;
    find_range = find_range;
    recall_tweet = recall_tweet;
    backfill_ids = backfill_ids;
  }
