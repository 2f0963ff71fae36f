-- ===== src/Db/Transactor/Atomic.antt =====
-- A transaction that fails has done nothing: `Exec` of internal/db/base.go.
use aita.Common.{◌≡◌, ◌∙◌, sym, ap, inl, inr}
use aita.Errcode.{Error}
use aita.Exec.{
  Result, ok, err, panic, Exec, ◌>>=◌, ◌>>◌, >>=-eq-err, attempt-ne-err, pure, raise, Attempt,
  returned, failed, attempt,
}
use aita.Exec.Keeps.{Keeps}
use aita.Pkg.Pool.{ignore}
use aita.Db.Transactor.{Ctx, in_tx, TxDriver, finish, exec}

-- What the database promises of its transactions, with `table` what it holds and `saved` what it
-- held when the open transaction began.
pub record IsTransactional {S D : Type 0} (driver : TxDriver S) (table saved : S → D) : Type 0 where
  pub begun : (s s' : S) → driver.begin s ≡ (ok tt, s') → saved s' ≡ table s
  pub not_begun : (e : Error) (s s' : S) → driver.begin s ≡ (err e, s') → table s' ≡ table s
  pub rolled_back : (s : S) → table (driver.rollback s).1 ≡ saved s
  pub not_committed : (e : Error) (s s' : S) → driver.commit s ≡ (err e, s') → table s' ≡ saved s

module _ {S D A : Type 0} (driver : TxDriver S) (table saved : S → D)
    (law : IsTransactional driver table saved) where
  rollback_restores :
      (r : Result (Unit {0})) (x e : Error) (s t s' : S)
      → table t ≡ saved s
      → (do ignore (λ (u : S). (r, t)); raise {A = A} x) s ≡ (err e, s')
      → table s' ≡ saved s
  rollback_restores (ok u) x e s t s' h q = ap table (sym (ap (λ p. p.1) q)) ∙ h
  rollback_restores (err y) x e s t s' h q = ap table (sym (ap (λ p. p.1) q)) ∙ h
  rollback_restores panic x e s t s' h q = cc

  finish_fails :
      (outcome : Attempt A) (e : Error) (s s' : S)
      → finish driver outcome s ≡ (err e, s')
      → table s' ≡ saved s
  finish_fails (failed x) e s s' q =
      rollback_restores (driver.rollback s).0 x e s (driver.rollback s).1 s' (law.rolled_back s) q
  finish_fails (returned a) e s s' q = elim (>>=-eq-err driver.commit (λ _. pure a) s q) [
    | inl c ↦ law.not_committed e s s' c
    | inr (u, t, c, d) ↦ cc (d)
  ]

  -- A transaction whose outcome is an error leaves the database as it was before it began, if what
  -- runs in it goes through the transaction.
  pub exec_atomic :
      (fn : Ctx → Exec S A) (s s' : S) (e : Error)
      → ((d : D) → Keeps (λ u. saved u ≡ d) (fn in_tx))
      → exec driver fn s ≡ (err e, s')
      → table s' ≡ table s
  unfolding exec
  exec_atomic fn s s' e inside q =
      elim (>>=-eq-err driver.begin (λ _. attempt (fn in_tx) >>= finish driver) s q) [
        | inl b ↦ law.not_begun e s s' b
        | inr (u, t, b, rest) ↦ elim (>>=-eq-err (attempt (fn in_tx)) (finish driver) t rest) [
          | inl never ↦ absurd (attempt-ne-err (fn in_tx) t e s' never)
          | inr (o, v, ran, failed_at) ↦
              finish_fails o e v s' failed_at
              ∙ (ap saved (sym (ap (λ p. p.1) ran)) ∙ (inside (table s)).at t (law.begun s t b))
        ]
      ]
