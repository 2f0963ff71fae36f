-- ===== src/Repository/Tweet/MultiGet.antt =====
-- What `MultiGet` of internal/repository/tweet_repository.go returns.
use aita.Common.{◌≤◌, length, ℤ, ◌≡◌, ◌≢◌, refl, subst, ap, Option, none, some, List, [], ◌∷◌}
use aita.Exec.{Result, ok, err, panic, ◌>>=◌, pure}
use aita.Models.{Tweet}
use aita.Pkg.Pool.{Pool, ignore_calm}
use aita.Pkg.Singleflight.{Group}
use aita.Repository.Batch.{empty_map, missed, insert_all, collect}
use aita.Repository.Batch.Agree.{IsSound, Answers, length-missed, collect_agree, filled_agrees}
use aita.Repository.Tweet.{
  TweetStore, TweetCache, TweetMap, Task, Flown, multi_backfill, id_of, record_of, fill,
  multi_get_some, multi_get,
}

module _ {S : Type 0} (store : TweetStore S) (cache : TweetCache S) (pool : Pool S Task)
    (sf : Group S Flown) where
  fill_lem :
      (truth m : TweetMap) (ids : List ℤ) (s : S)
      → IsSound id_of truth m
      → ((js : List ℤ) (s' : S)
          → length js ≤ length ids
          → (rows : List Tweet) × (s'' : S) × (store.get_tweets_by_tweet_ids js s' ≡ (ok rows, s''))
            × Answers id_of truth js rows)
      → ((t : Task) (s' : S) → (pool.submit t s').0 ≢ panic)
      → (js : List ℤ) → missed m ids ≡ js
      → (full : TweetMap) × ((fill store cache pool sf m js s).0 ≡ ok full)
        × (collect record_of full ids ≡ collect record_of truth ids)
  fill_lem truth m ids s h stored calm [] e = (
    m,
    refl,
    collect_agree record_of m truth ids (
        unfold insert_all in
        filled_agrees id_of truth m ids [] h
          (rw e (record { sound = tt; complete = λ id t i. elim i [ ] }))),
  )
  fill_lem truth m ids s h stored calm (j ∷ js) e =
      let (rows, s', q, a) =
        stored (j ∷ js) s (subst (λ xs. length xs ≤ length ids) e (length-missed id_of m ids)) in
      (
        insert_all id_of m rows,
        rw (q, ignore_calm (pool.submit (multi_backfill rows)) s' (calm (multi_backfill rows) s')),
        collect_agree record_of (insert_all id_of m rows) truth ids
            (filled_agrees id_of truth m ids rows h (rw e a)),
      )

  -- `MultiGet` answers, for the IDs in the order and as often as they were asked for, the rows of
  -- the table and nothing for an ID without a row, whichever of them the cache knew: if what the
  -- cache returns is sound and it does not panic, the store answers every list of IDs that is no
  -- longer than the one asked for, and the pool does not panic.
  pub multi_get_lem :
      (truth : TweetMap) (ids : List ℤ) (s : S)
      → ((got : Result (Option TweetMap)) (s' : S)
          → cache.multi_get_tweets ids s ≡ (got, s')
          → (got ≢ panic) × ((m : TweetMap) → got ≡ ok (some m) → IsSound id_of truth m))
      → ((js : List ℤ) (s' : S)
          → length js ≤ length ids
          → (rows : List Tweet) × (s'' : S) × (store.get_tweets_by_tweet_ids js s' ≡ (ok rows, s''))
            × Answers id_of truth js rows)
      → ((t : Task) (s' : S) → (pool.submit t s').0 ≢ panic)
      → (multi_get store cache pool sf ids s).0 ≡ ok (collect record_of truth ids)
  unfolding multi_get
  multi_get_lem truth [] s cached stored calm = unfold collect in refl
  multi_get_lem truth (id ∷ ids) s cached stored calm =
      go (cache.multi_get_tweets (id ∷ ids) s).0 (cache.multi_get_tweets (id ∷ ids) s).1 refl
    where
      filled :
          (m : TweetMap) (s' : S)
          → IsSound id_of truth m
          → (do
            full ← fill store cache pool sf m (missed m (id ∷ ids))
            pure (collect record_of full (id ∷ ids)))
              s'
            ≡ (
              ok (collect record_of truth (id ∷ ids)),
              (fill store cache pool sf m (missed m (id ∷ ids)) s').1,
            )
      filled m s' h =
          let (full, e, f) =
            fill_lem truth m (id ∷ ids) s' h stored calm (missed m (id ∷ ids)) refl in
          rw e (rw f)

      go :
          (got : Result (Option TweetMap)) (s' : S)
          → cache.multi_get_tweets (id ∷ ids) s ≡ (got, s')
          → (multi_get_some store cache pool sf (id ∷ ids) s).0
            ≡ ok (collect record_of truth (id ∷ ids))
      go (ok (some m)) s' e =
          rw e (ap (λ p. p.0) (filled m s' ((cached (ok (some m)) s' e).1 m refl)))
      go (ok none) s' e = rw e (ap (λ p. p.0) (filled empty_map s' (record { entry = λ id t. cc })))
      go (err x) s' e = rw e (ap (λ p. p.0) (filled empty_map s' (record { entry = λ id t. cc })))
      go panic s' e = absurd ((cached panic s' e).0 refl)
