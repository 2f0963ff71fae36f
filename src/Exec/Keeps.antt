-- ===== src/Exec/Keeps.antt =====
-- What an action keeps of the state whatever its outcome, one rule for each way to build an
-- action.
use aita.Common.{Bool, true, false, if◌then◌else◌}
use aita.Errcode.{Sentinel, Error}
use aita.Exec.{
  Result, ok, err, panic, Exec, ◌>>=◌, continue, pure, raise, fail, lift, wrap_err, attempt,
}

-- After `m` the state has `P`, if it had it before.
pub record Keeps {ℓ κ} {S A : Type ℓ} (P : S → Type κ) (m : Exec S A) : Type (ℓ ⊔ κ) where
  pub at : (s : S) → P s → P (m s).1

module _ {ℓ κ} {S A : Type ℓ} {P : S → Type κ} where
  pub Keeps-pure : (a : A) → Keeps P (pure a)
  Keeps-pure a = record { at = λ s h. h }

  pub Keeps-fail : (c : Sentinel) → Keeps P (fail {A = A} c)
  Keeps-fail c = record { at = λ s h. h }

  pub Keeps-raise : (e : Error) → Keeps P (raise {A = A} e)
  Keeps-raise e = record { at = λ s h. h }

  pub Keeps-lift : (r : Result A) → Keeps P (lift r)
  Keeps-lift r = record { at = λ s h. h }

  pub Keeps-wrap_err : (m : Exec S A) → Keeps P m → Keeps P (wrap_err m)
  Keeps-wrap_err m k = record { at = k.at }

  pub Keeps-attempt : (m : Exec S A) → Keeps P m → Keeps P (attempt m)
  Keeps-attempt m k = record { at = k.at }

  pub Keeps-if : (b : Bool) (m n : Exec S A) → Keeps P m → Keeps P n → Keeps P (if b then m else n)
  Keeps-if true m n km kn = km
  Keeps-if false m n km kn = kn

module _ {ℓ κ} {S A B : Type ℓ} {P : S → Type κ} where
  pub Keeps-continue :
      (r : Result A) (f : A → Exec S B) (s : S)
      → ((a : A) → Keeps P (f a))
      → P s
      → P (continue r f s).1
  Keeps-continue (ok a) f s kf h = (kf a).at s h
  Keeps-continue (err e) f s kf h = h
  Keeps-continue panic f s kf h = h

  pub Keeps-bind :
      (m : Exec S A) (f : A → Exec S B) → Keeps P m → ((a : A) → Keeps P (f a)) → Keeps P (m >>= f)
  Keeps-bind m f km kf = record { at = λ s h. Keeps-continue (m s).0 f (m s).1 kf (km.at s h) }

pub ruleset keeps_rules = (
  Keeps-pure, Keeps-fail, Keeps-raise, Keeps-lift, Keeps-wrap_err, Keeps-attempt, Keeps-if,
  Keeps-bind,
)
