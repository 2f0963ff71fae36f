-- ===== src/Repository/User/Infos.antt =====
-- What `GetBaseInfos` of internal/repository/user_repository.go returns.
use aita.Common.{◌≤◌, length, ℤ, ◌≡◌, ◌≢◌, refl, subst, ap, Option, none, some, List, [], ◌∷◌}
use aita.Exec.{Result, ok, err, panic, ◌>>=◌, pure}
use aita.Models.{UserInfo}
use aita.Pkg.Pool.{Pool, ignore_calm}
use aita.Pkg.Singleflight.{Group}
use aita.Repository.Batch.{empty_map, missed, insert_all, collect}
use aita.Repository.Batch.Agree.{IsSound, Answers, length-missed, collect_agree, filled_agrees}
use aita.Repository.User.{
  UserStore, UserCache, InfoMap, Task, Flown, multi_backfill, id_of, slim_of, fill, base_infos_some,
  get_base_infos,
}

module _ {S : Type 0} (store : UserStore S) (cache : UserCache S) (pool : Pool S Task)
    (sf : Group S Flown) where
  fill_lem :
      (truth m : InfoMap) (ids : List ℤ) (s : S)
      → IsSound id_of truth m
      → ((js : List ℤ) (s' : S)
          → length js ≤ length ids
          → (rows : List UserInfo) × (s'' : S) × (store.get_names_by_ids js s' ≡ (ok rows, s''))
            × Answers id_of truth js rows)
      → ((t : Task) (s' : S) → (pool.submit t s').0 ≢ panic)
      → (js : List ℤ) → missed m ids ≡ js
      → (full : InfoMap) × ((fill store cache pool sf m js s).0 ≡ ok full)
        × (collect slim_of full ids ≡ collect slim_of truth ids)
  fill_lem truth m ids s h stored calm [] e = (
    m,
    refl,
    collect_agree slim_of m truth ids (
        unfold insert_all in
        filled_agrees id_of truth m ids [] h
          (rw e (record { sound = tt; complete = λ id t i. elim i [ ] }))),
  )
  fill_lem truth m ids s h stored calm (j ∷ js) e =
      let (rows, s', q, a) =
        stored (j ∷ js) s (subst (λ xs. length xs ≤ length ids) e (length-missed id_of m ids)) in
      (
        insert_all id_of m rows,
        rw (q, ignore_calm (pool.submit (multi_backfill rows)) s' (calm (multi_backfill rows) s')),
        collect_agree slim_of (insert_all id_of m rows) truth ids
            (filled_agrees id_of truth m ids rows h (rw e a)),
      )

  -- `GetBaseInfos` answers, for the IDs in the order and as often as they were asked for, the users
  -- of the table and nothing for an ID without one, whichever of them the cache knew: if what the
  -- cache returns is sound and it does not panic, the store answers every list of IDs that is no
  -- longer than the one asked for, and the pool does not panic.
  pub get_base_infos_lem :
      (truth : InfoMap) (ids : List ℤ) (s : S)
      → ((got : Result (Option InfoMap)) (s' : S)
          → cache.get_lists ids s ≡ (got, s')
          → (got ≢ panic) × ((m : InfoMap) → got ≡ ok (some m) → IsSound id_of truth m))
      → ((js : List ℤ) (s' : S)
          → length js ≤ length ids
          → (rows : List UserInfo) × (s'' : S) × (store.get_names_by_ids js s' ≡ (ok rows, s''))
            × Answers id_of truth js rows)
      → ((t : Task) (s' : S) → (pool.submit t s').0 ≢ panic)
      → (get_base_infos store cache pool sf ids s).0 ≡ ok (collect slim_of truth ids)
  unfolding get_base_infos
  get_base_infos_lem truth [] s cached stored calm = unfold collect in refl
  get_base_infos_lem truth (id ∷ ids) s cached stored calm =
      go (cache.get_lists (id ∷ ids) s).0 (cache.get_lists (id ∷ ids) s).1 refl
    where
      filled :
          (m : InfoMap) (s' : S)
          → IsSound id_of truth m
          → (do
            full ← fill store cache pool sf m (missed m (id ∷ ids))
            pure (collect slim_of full (id ∷ ids)))
              s'
            ≡ (
              ok (collect slim_of truth (id ∷ ids)),
              (fill store cache pool sf m (missed m (id ∷ ids)) s').1,
            )
      filled m s' h =
          let (full, e, f) =
            fill_lem truth m (id ∷ ids) s' h stored calm (missed m (id ∷ ids)) refl in
          rw e (rw f)

      go :
          (got : Result (Option InfoMap)) (s' : S)
          → cache.get_lists (id ∷ ids) s ≡ (got, s')
          → (base_infos_some store cache pool sf (id ∷ ids) s).0
            ≡ ok (collect slim_of truth (id ∷ ids))
      go (ok (some m)) s' e =
          rw e (ap (λ p. p.0) (filled m s' ((cached (ok (some m)) s' e).1 m refl)))
      go (ok none) s' e = rw e (ap (λ p. p.0) (filled empty_map s' (record { entry = λ id t. cc })))
      go (err x) s' e = rw e (ap (λ p. p.0) (filled empty_map s' (record { entry = λ id t. cc })))
      go panic s' e = absurd ((cached panic s' e).0 refl)
