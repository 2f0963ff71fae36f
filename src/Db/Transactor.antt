-- ===== src/Db/Transactor.antt =====
-- internal/db/base.go: `conn` and the transactor. The statements that begin, roll back and commit
-- are parameters; a context carries a transaction or none.
pub mod Atomic
use aita.Common.{◌≡◌, Option, none, some}
use aita.Exec.{Exec, ◌>>=◌, ◌>>◌, pure, raise, Attempt, returned, failed, attempt}
use aita.Pkg.Pool.{ignore}

-- What `extractTx` finds in a context.
pub data Ctx : Type 0 where
  base in_tx : Ctx

-- conn: a statement runs in the context's transaction, or else on the database.
unfoldable pub conn : {A : Type 0} → Ctx → A → A → A
conn base on_database on_tx = on_database
conn in_tx on_database on_tx = on_tx

pub record TxDriver (S : Type 0) : Type 0 where
  pub begin : Exec S Unit
  pub rollback : Exec S Unit
  pub commit : Exec S Unit

module _ {S : Type 0} (driver : TxDriver S) where
  abbrev finish : {A : Type 0} → Attempt A → Exec S A
  finish (returned a) = do driver.commit; pure a
  finish (failed e) = do ignore driver.rollback; raise e

  -- Exec of `sqlTransactor`; a panic of `fn` passes through, with the transaction left open. What
  -- `fn` leaves in the variables that it captures is its result here.
  unfoldable pub exec : {A : Type 0} → (Ctx → Exec S A) → Exec S A
  exec fn = do driver.begin; outcome ← attempt (fn in_tx); finish outcome
