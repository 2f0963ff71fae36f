-- ===== src/Exec/Calm.antt =====
-- Actions that end in a value or in an error and never in a panic, one rule for each way to build
-- an action.
use aita.Common.{Bool, true, false, Option, none, some, if◌then◌else◌}
use aita.Errcode.{Sentinel, Error}
use aita.Exec.{
  Result, ok, err, panic, Exec, ◌>>=◌, continue, pure, raise, fail, lift, wrap, wrap_err, inspect,
  Attempt, returned, failed, attempt,
}

-- No panic, and a value that has `P`.
abbrev pub Lands : {A : Type 0} → (A → Type 0) → Result A → Type 0
Lands P (ok a) = P a
Lands P (err e) = Unit
Lands P panic = ⊥

abbrev pub Any : {A : Type 0} → A → Type 0
Any a = Unit

-- Not a nil pointer.
abbrev pub IsSome : {A : Type 0} → Option A → Type 0
IsSome none = ⊥
IsSome (some a) = Unit

abbrev pub Tried : {A : Type 0} → (A → Type 0) → Attempt A → Type 0
Tried P (returned a) = P a
Tried P (failed e) = Unit

-- In every state `m` ends without a panic, and with `P` where it returns a value.
pub record Calm {S A : Type 0} (P : A → Type 0) (m : Exec S A) : Type 0 where
  pub at : (s : S) → Lands P (m s).0

module _ {A : Type 0} (P : A → Type 0) where
  Lands-wrap : (r : Result A) → Lands P r → Lands P (wrap r)
  Lands-wrap (ok a) h = h
  Lands-wrap (err e) h = tt
  Lands-wrap panic h = h

  Lands-inspect : (r : Result A) → Lands P r → Lands (Tried P) (inspect r)
  Lands-inspect (ok a) h = h
  Lands-inspect (err e) h = tt
  Lands-inspect panic h = h

  Lands-any : (r : Result A) → Lands P r → Lands Any r
  Lands-any (ok a) h = tt
  Lands-any (err e) h = tt
  Lands-any panic h = h

module _ {S A : Type 0} {P : A → Type 0} where
  pub Calm-pure : (a : A) → P a → Calm {S = S} P (pure a)
  Calm-pure a h = record { at = λ s. h }

  pub Calm-raise : (e : Error) → Calm {S = S} P (raise e)
  Calm-raise e = record { at = λ s. tt }

  pub Calm-fail : (c : Sentinel) → Calm {S = S} P (fail c)
  Calm-fail c = record { at = λ s. tt }

  pub Calm-lift : (r : Result A) → Lands P r → Calm {S = S} P (lift r)
  Calm-lift r h = record { at = λ s. h }

  pub Calm-if : (b : Bool) (m n : Exec S A) → Calm P m → Calm P n → Calm P (if b then m else n)
  Calm-if true m n cm cn = cm
  Calm-if false m n cm cn = cn

  pub Calm-wrap_err : (m : Exec S A) → Calm P m → Calm P (wrap_err m)
  Calm-wrap_err m c = record { at = λ s. Lands-wrap P (m s).0 (c.at s) }

  pub Calm-attempt : (m : Exec S A) → Calm P m → Calm (Tried P) (attempt m)
  Calm-attempt m c = record { at = λ s. Lands-inspect P (m s).0 (c.at s) }

  pub Calm-any : (m : Exec S A) → Calm P m → Calm Any m
  Calm-any m c = record { at = λ s. Lands-any P (m s).0 (c.at s) }

module _ {S A B : Type 0} {P : B → Type 0} where
  Lands-continue :
      (Q : A → Type 0) (r : Result A) (f : A → Exec S B) (s : S)
      → Lands Q r
      → ((a : A) → Q a → Calm P (f a))
      → Lands P (continue r f s).0
  Lands-continue Q (ok a) f s h cf = (cf a h).at s
  Lands-continue Q (err e) f s h cf = tt
  Lands-continue Q panic f s h cf = h

  -- What the first action returns may matter to the rest.
  pub Calm-bind_with :
      (Q : A → Type 0) (m : Exec S A) (f : A → Exec S B)
      → Calm Q m
      → ((a : A) → Q a → Calm P (f a))
      → Calm P (m >>= f)
  Calm-bind_with Q m f cm cf = record { at = λ s. Lands-continue Q (m s).0 f (m s).1 (cm.at s) cf }

  pub Calm-bind :
      (m : Exec S A) (f : A → Exec S B) → Calm Any m → ((a : A) → Calm P (f a)) → Calm P (m >>= f)
  Calm-bind m f cm cf = Calm-bind_with Any m f cm (λ a h. cf a)

pub ruleset calm_rules =
    (Calm-pure, Calm-raise, Calm-fail, Calm-lift, Calm-wrap_err, Calm-if, Calm-bind)
