-- ===== src/Exec/Gives.antt =====
-- What an action returns where it returns a value, one rule for each way to build an action.
use aita.Common.{◌≡◌, subst, Bool, true, false, if◌then◌else◌, arith}
use aita.Errcode.{Sentinel, Error}
use aita.Exec.{ok, Exec, ◌>>=◌, >>=-eq-ok, pure, raise, fail, crash}

-- What `m` returns has `P`.
pub record Gives {S A : Type 0} (P : A → Type 0) (m : Exec S A) : Type 0 where
  pub at : (s : S) (a : A) (s' : S) → m s ≡ (ok a, s') → P a

module _ {S A : Type 0} {P : A → Type 0} where
  pub Gives-pure : (a : A) → P a → Gives {S = S} P (pure a)
  Gives-pure a h = record { at = λ s b s' e. subst P (same s b s' e) h }
    where
      same : (s : S) (b : A) (s' : S) → pure a s ≡ (ok b, s') → a ≡ b
      same s b s' e = ground arith

  pub Gives-raise : (e : Error) → Gives {S = S} P (raise e)
  Gives-raise e = record { at = λ s a s' h. cc }

  pub Gives-fail : (c : Sentinel) → Gives {S = S} P (fail c)
  Gives-fail c = record { at = λ s a s' h. cc }

  pub Gives-crash : Gives {S = S} P crash
  Gives-crash = record { at = λ s a s' h. cc }

  pub Gives-if : (b : Bool) (m n : Exec S A) → Gives P m → Gives P n → Gives P (if b then m else n)
  Gives-if true m n gm gn = gm
  Gives-if false m n gm gn = gn

-- The last action decides.
pub Gives-bind :
    {S A B : Type 0} {P : B → Type 0} (m : Exec S A) (f : A → Exec S B)
    → ((a : A) → Gives P (f a))
    → Gives P (m >>= f)
Gives-bind m f g = record {
  at = λ s b s' h. let (a, t, first, rest) = >>=-eq-ok m f s h in (g a).at t b s' rest;
}
