-- ===== src/Service/Follow/Atomic.antt =====
-- A follow that fails has done nothing: internal/service/follow_service.go with the transactor of
-- internal/db/base.go.
use aita.Common.{
  ℤ, is_nonpos, int_eq, ◌≡◌, ◌∙◌, inl, inr, ap, sym, Bool, true, false, ◌||◌, some, if◌then◌else◌,
}
use aita.Errcode.{Error, user_not_found, invalid_user_id, cannot_follow_self}
use aita.Exec.{err, ◌>>=◌, >>=-eq-err, attempt-ne-err, fail, attempt}
use aita.Exec.Keeps.{Keeps, keeps_rules}
use aita.Db.Transactor.{in_tx, TxDriver, exec}
use aita.Db.Transactor.Atomic.{IsTransactional, exec_atomic}
use aita.Service.Follow.{
  FollowRepository, CountManager, TransactionManager, FollowService, follow, follow_in, is_missing,
}

module _ {S D : Type 0} (driver : TxDriver S) (table saved : S → D) where
  -- The transactor as the interface of the service.
  abbrev pub transactor : TransactionManager S
  transactor = record { exec_follow = exec driver; exec_unfollow = exec driver }

  -- The statements that a follow sends through its transaction leave alone what a rollback
  -- restores, and asking whether a user exists changes no table.
  pub record IsThroughTx (fr : FollowRepository S) (cm : CountManager S) : Type 0 where
    pub creates : (a b : ℤ) (d : D) → Keeps (λ s. saved s ≡ d) (fr.create in_tx a b)
    pub counts_followers :
        (a b : ℤ) (d : D) → Keeps (λ s. saved s ≡ d) (cm.update_follower_count in_tx a b)
    pub counts_followings :
        (a b : ℤ) (d : D) → Keeps (λ s. saved s ≡ d) (cm.update_following_count in_tx a b)
    pub looks : (a : ℤ) (s : S) → table (cm.exists a s).1 ≡ table s

  module _ (fr : FollowRepository S) (cm : CountManager S)
      (law : IsTransactional driver table saved) (through : IsThroughTx fr cm) where
    -- The service with a transaction manager.
    abbrev wired : FollowService S
    wired = record {
      follow_repository = fr;
      count_manager = cm;
      transaction_manager = some transactor;
    }

    follow_in-Keeps : (a b : ℤ) (d : D) → Keeps (λ s. saved s ≡ d) (follow_in wired a b in_tx)
    unfolding follow_in
    follow_in-Keeps a b d =
        search (keeps_rules, through.creates, through.counts_followers, through.counts_followings)
          depth 9

    decided :
        (missing : Bool) (a b : ℤ) (s s' : S) (e : Error)
        → (if missing then fail user_not_found else exec driver (follow_in wired a b)) s
          ≡ (err e, s')
        → table s' ≡ table s
    decided true a b s s' e h = ap table (sym (ap (λ p. p.1) h))
    decided false a b s s' e h =
        exec_atomic driver table saved law (follow_in wired a b) s s' e (follow_in-Keeps a b) h

    guarded :
        (p q : Bool) (a b : ℤ) (s s' : S) (e : Error)
        → (if p then fail invalid_user_id else if q then fail cannot_follow_self else do
          found ← attempt (cm.exists b)
          if is_missing found then fail user_not_found else exec driver (follow_in wired a b))
            s
          ≡ (err e, s')
        → table s' ≡ table s
    guarded true q a b s s' e h = ap table (sym (ap (λ p. p.1) h))
    guarded false true a b s s' e h = ap table (sym (ap (λ p. p.1) h))
    guarded false false a b s s' e h =
        elim (>>=-eq-err (attempt (cm.exists b))
          (λ found.
            if is_missing found then fail user_not_found else exec driver (follow_in wired a b))
          s h) [
            | inl never ↦ absurd (attempt-ne-err (cm.exists b) s e s' never)
            | inr (found, t, looked, rest) ↦
                decided (is_missing found) a b t s' e rest
                ∙ (ap table (sym (ap (λ p. p.1) looked)) ∙ through.looks b s)
          ]

    -- A follow that answers an error has changed no table, whichever of its three writes failed and
    -- if the commit did, for a service that has the transactor.
    pub follow_atomic :
        (a b : ℤ) (s s' : S) (e : Error) → follow wired a b s ≡ (err e, s') → table s' ≡ table s
    unfolding follow
    follow_atomic a b s s' e h = guarded (is_nonpos a || is_nonpos b) (int_eq a b) a b s s' e h
