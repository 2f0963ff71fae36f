-- ===== src/Exec/Speaks.antt =====
-- Actions that never end in an error, one rule for each way to build an action.
use aita.Common.{◌≢◌, refl, Bool, true, false, if◌then◌else◌}
use aita.Errcode.{Error}
use aita.Exec.{Result, ok, err, panic, Exec, ◌>>=◌, continue, pure, crash, inspect, attempt}

pub record Speaks {S A : Type 0} (m : Exec S A) : Type 0 where
  pub at : (s : S) (e : Error) → (m s).0 ≢ err e

inspect-ne-err : {A : Type 0} (r : Result A) (e : Error) → inspect r ≢ err e
inspect-ne-err (ok a) e h = cc
inspect-ne-err (err x) e h = cc
inspect-ne-err panic e h = cc

module _ {S A : Type 0} where
  pub Speaks-pure : (a : A) → Speaks {S = S} (pure a)
  Speaks-pure a = record { at = λ s e h. cc }

  pub Speaks-crash : Speaks {S = S} {A = A} crash
  Speaks-crash = record { at = λ s e h. cc }

  pub Speaks-if : (b : Bool) (m n : Exec S A) → Speaks m → Speaks n → Speaks (if b then m else n)
  Speaks-if true m n sm sn = sm
  Speaks-if false m n sm sn = sn

  pub Speaks-attempt : (m : Exec S A) → Speaks (attempt m)
  Speaks-attempt m = record { at = λ s. inspect-ne-err (m s).0 }

module _ {S A B : Type 0} where
  Speaks-continue :
      (r : Result A) (f : A → Exec S B) (s : S)
      → ((e : Error) → r ≢ err e)
      → ((a : A) → Speaks (f a))
      → (e : Error) → (continue r f s).0 ≢ err e
  Speaks-continue (ok a) f s h sf e k = (sf a).at s e k
  Speaks-continue (err x) f s h sf e k = absurd (h x refl)
  Speaks-continue panic f s h sf e k = cc

  pub Speaks-bind :
      (m : Exec S A) (f : A → Exec S B) → Speaks m → ((a : A) → Speaks (f a)) → Speaks (m >>= f)
  Speaks-bind m f sm sf = record { at = λ s. Speaks-continue (m s).0 f (m s).1 (sm.at s) sf }
