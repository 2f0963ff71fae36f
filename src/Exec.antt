-- ===== src/Exec.antt =====
-- Go methods that read and write shared state and return `(value, error)`. A panic is an outcome
-- of its own, which no caller of the program's recovers but gin's and the pools' handlers.
pub mod Keeps
pub mod Gives
pub mod Calm
pub mod Speaks
use aita.Common.{◌≡◌, ◌≢◌, refl, ap, ◌⊎◌, inl, inr, arith}
use aita.Errcode.{Sentinel, Error, sentinel, wrapped}

pub data Result {ℓ} (A : Type ℓ) : Type ℓ where
  ok : A → Result A
  err : Error → Result A
  panic : Result A

abbrev pub Exec {ℓ} : Type ℓ → Type ℓ → Type ℓ
Exec S A = S → Result A × S

-- The outcome of a call whose error the caller looks at.
pub data Attempt {ℓ} (A : Type ℓ) : Type ℓ where
  returned : A → Attempt A
  failed : Error → Attempt A

module _ {ℓ} {S A B : Type ℓ} where
  abbrev pub continue : Result A → (A → Exec S B) → Exec S B
  continue (ok a) f s = f a s
  continue (err e) f s = (err e, s)
  continue panic f s = (panic, s)

  infixl 10 ◌>>=◌ ◌>>◌
  abbrev pub ◌>>=◌ : Exec S A → (A → Exec S B) → Exec S B
  ◌>>=◌ m f s = let (r, s') = m s in continue r f s'

  abbrev pub ◌>>◌ : Exec S A → Exec S B → Exec S B
  m >> n = m >>= λ _. n

module _ {ℓ} {A : Type ℓ} where
  abbrev pub wrap : Result A → Result A
  wrap (ok a) = ok a
  wrap (err e) = err (wrapped e)
  wrap panic = panic

  abbrev pub inspect : Result A → Result (Attempt A)
  inspect (ok a) = ok (returned a)
  inspect (err e) = ok (failed e)
  inspect panic = panic

module _ {ℓ} {S A : Type ℓ} where
  abbrev pub pure : A → Exec S A
  pure a s = (ok a, s)

  -- `return nil, err`
  abbrev pub raise : Error → Exec S A
  raise e s = (err e, s)

  abbrev pub fail : Sentinel → Exec S A
  fail c s = (err (sentinel c), s)

  -- The result of a call that touches no state.
  abbrev pub lift : Result A → Exec S A
  lift r s = (r, s)

  abbrev pub crash : Exec S A
  crash s = (panic, s)

  -- `if err != nil { return nil, fmt.Errorf("…: %w", err) }`
  abbrev pub wrap_err : Exec S A → Exec S A
  wrap_err m s = let (r, s') = m s in (wrap r, s')

  -- The caller gets the error as a value.
  abbrev pub attempt : Exec S A → Exec S (Attempt A)
  attempt m s = let (r, s') = m s in (inspect r, s')

module _ {ℓ} {S A B : Type ℓ} where
  continue-eq-ok :
      (r : Result A) (f : A → Exec S B) (s' : S) {b : B} {s'' : S}
      → continue r f s' ≡ (ok b, s'')
      → (a : A) × (r ≡ ok a) × (f a s' ≡ (ok b, s''))
  continue-eq-ok (ok a) f s' h = (a, refl, h)
  continue-eq-ok (err e) f s' h = cc
  continue-eq-ok panic f s' h = cc

  -- Inversion of a successful sequence.
  pub >>=-eq-ok :
      (m : Exec S A) (f : A → Exec S B) (s : S) {b : B} {s'' : S}
      → (m >>= f) s ≡ (ok b, s'')
      → (a : A) × (s' : S) × (m s ≡ (ok a, s')) × (f a s' ≡ (ok b, s''))
  >>=-eq-ok m f s h =
      let (a, e, k) = continue-eq-ok (m s).0 f (m s).1 h in (a, (m s).1, λ i. (e i, (m s).1), k)

module _ {ℓ} {A : Type ℓ} where
  inspect-eq-returned : (r : Result A) (a : A) → inspect r ≡ ok (returned a) → r ≡ ok a
  inspect-eq-returned (ok b) a h = ground arith
  inspect-eq-returned (err e) a h = cc
  inspect-eq-returned panic a h = cc

  inspect-ne-err : (r : Result A) (e : Error) → inspect r ≢ err e
  inspect-ne-err (ok b) e h = cc
  inspect-ne-err (err x) e h = cc
  inspect-ne-err panic e h = cc

module _ {ℓ} {S A : Type ℓ} where
  pub attempt-ne-err : (m : Exec S A) (s : S) (e : Error) (s' : S) → attempt m s ≢ (err e, s')
  attempt-ne-err m s e s' h = inspect-ne-err (m s).0 e (ap (λ p. p.0) h)

  pub attempt-eq-returned :
      (m : Exec S A) (s : S) (a : A) (s' : S)
      → attempt m s ≡ (ok (returned a), s')
      → m s ≡ (ok a, s')
  attempt-eq-returned m s a s' h =
      λ i. (inspect-eq-returned (m s).0 a (ap (λ p. p.0) h) i, (ap (λ p. p.1) h) i)

module _ {ℓ} {S A B : Type ℓ} where
  continue-eq-err :
      (r : Result A) (f : A → Exec S B) (s' : S) {e : Error} {s'' : S}
      → continue r f s' ≡ (err e, s'')
      → ((r ≡ err e) × (s' ≡ s'')) ⊎ ((a : A) × (r ≡ ok a) × (f a s' ≡ (err e, s'')))
  continue-eq-err (ok a) f s' h = inr (a, refl, h)
  continue-eq-err (err x) f s' h = inl (ground arith, ground arith)
  continue-eq-err panic f s' h = cc

  -- Inversion of a sequence that fails.
  pub >>=-eq-err :
      (m : Exec S A) (f : A → Exec S B) (s : S) {e : Error} {s'' : S}
      → (m >>= f) s ≡ (err e, s'')
      → (m s ≡ (err e, s'')) ⊎ ((a : A) × (s' : S) × (m s ≡ (ok a, s')) × (f a s' ≡ (err e, s'')))
  >>=-eq-err m f s h = elim (continue-eq-err (m s).0 f (m s).1 h) [
    | inl (p, q) ↦ inl (λ i. (p i, q i))
    | inr (a, p, q) ↦ inr (a, (m s).1, λ i. (p i, (m s).1), q)
  ]
