-- ===== src/Pkg/Pool.antt =====
-- The goroutine pool of github.com/panjf2000/ants, as the repositories call it: a parameter, and
-- internal/pkg/pool/pool.go, which builds one and which nothing calls. A
-- closure that the code submits is a value of a type `T` of tasks, with what it captures.
use aita.Common.{ℕ, ℤ, Bool, true, ◌≡◌, ◌≢◌, refl}
use aita.Exec.{Result, ok, err, panic, Exec, Attempt, attempt, ◌>>=◌, ◌>>◌, pure}

pub record Pool (S T : Type 0) : Type 0 where
  pub submit : T → Exec S Unit

-- `_ = f()`: the error is dropped, a panic is not.
abbrev pub ignore {ℓ} : {S A : Type ℓ} → Exec S A → Exec S Unit
ignore m = do attempt m; pure tt

-- `if err := f(); err != nil { g() }`
abbrev pub on_error {ℓ} : {S A : Type ℓ} → Exec S A → Exec S Unit → Exec S Unit
on_error m g = do r ← attempt m; elim r [ Attempt.returned _ ↦ pure tt | Attempt.failed _ ↦ g ]

-- A dropped error is no failure of the caller.
pub ignore_calm {ℓ} :
    {S A : Type ℓ} (m : Exec S A) (s : S) → (m s).0 ≢ panic → ignore m s ≡ (ok tt, (m s).1)
ignore_calm {A} m s h = go (m s).0 h
  where
    go : (r : Result A) → r ≢ panic → (ignore (λ _. (r, (m s).1)) s) ≡ (ok tt, (m s).1)
    go (ok a) h = refl
    go (err e) h = refl
    go panic h = absurd (h refl)

-- The options of internal/pkg/pool/pool.go, beside a handler that logs a panic.
pub record PoolOptions : Type 0 where
  pub pre_alloc : Bool
  pub expiry_duration : ℕ
  pub logs_panics : Bool

-- NewBackfillPool; `new_pool` is that of ants.
unfoldable pub new_backfill_pool : {P : Type 0} → (ℤ → PoolOptions → Result P) → ℤ → Result P
new_backfill_pool new_pool size =
    new_pool size
      (record { pre_alloc = true; expiry_duration = 10_000_000_000; logs_panics = true })
