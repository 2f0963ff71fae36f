-- ===== src/Pkg/Utils.antt =====
-- internal/pkg/utils/helper.go: a pointer to a text, and how long an entry of a cache lives, in nanoseconds. The generator
-- of math/rand/v2 and the two products with a float64 are a parameter, `Rand`.
use aita.Common.{
  ℕ, zero, suc, ◌+◌, ◌≤◌, ◌<◌, String, str_eq, Option, none, some, ℤ, pos, is_nonpos, pos_part, ◌≡◌,
  sym, arith, if◌then◌else◌,
}
use aita.Exec.Keeps.{Keeps, keeps_rules}
use aita.Exec.{ok, Exec, ◌>>=◌, pure, >>=-eq-ok}

-- StringPtr, which nothing calls: a pointer or nil.
unfoldable string_ptr : String → Option String
string_ptr s = if str_eq s "" then none else some s

-- `rand.N(n)`, and `time.Duration(float64(t) * 0.9)` and `… * 0.2` of a positive `t`.
pub record Rand (S : Type 0) : Type 0 where
  pub draw : ℕ → Exec S ℕ
  pub nine_tenths : ℕ → ℕ
  pub two_tenths : ℕ → ℕ

-- time.Hour, time.Minute
abbrev pub minute : ℕ
minute = 60_000_000_000

abbrev pub hour : ℕ
hour = 3_600_000_000_000

module _ {S : Type 0} (rand : Rand S) where
  abbrev spread : ℕ → ℕ → Exec S ℕ
  spread base zero = pure base
  spread base (suc jitter_range) = do more ← rand.draw (suc jitter_range + 1); pure (base + more)

  -- randomizeTD
  unfoldable pub randomize_td : ℤ → Exec S ℕ
  randomize_td t =
      if is_nonpos t
      then pure 0
      else spread (rand.nine_tenths (pos_part t)) (rand.two_tenths (pos_part t))

  abbrev lengthened : ℤ → ℕ → Exec S ℕ
  lengthened jitter r_base =
      if is_nonpos jitter
      then pure r_base
      else do more ← rand.draw (pos_part jitter + 1); pure (r_base + more)

  -- GetRandomExpiration
  unfoldable pub get_random_expiration : ℤ → ℤ → Exec S ℕ
  get_random_expiration base jitter =
      if is_nonpos base
      then randomize_td (pos hour)
      else do r_base ← randomize_td base; lengthened jitter r_base

-- What the code relies on: a draw is below its bound.
pub record IsBounded {S : Type 0} (rand : Rand S) : Type 0 where
  pub draws : (n : ℕ) (s : S) (m : ℕ) (s' : S) → rand.draw n s ≡ (ok m, s') → m < n

module _ {S : Type 0} (rand : Rand S) (bounded : IsBounded rand) where
  same : {a b : ℕ} {s t : S} → pure a s ≡ (ok b, t) → a ≡ b
  same h = ground arith

  spread-le :
      (base range : ℕ) (s : S) (d : ℕ) (s' : S)
      → spread rand base range s ≡ (ok d, s')
      → (base ≤ d) × (d ≤ base + range)
  spread-le base zero s d s' h = rw (sym (same h)) (omega arith, omega arith)
  spread-le base (suc range) s d s' h =
      let (more, t, drawn, e) = >>=-eq-ok (rand.draw (suc range + 1)) _ s h in
      let below = bounded.draws (suc range + 1) s more t drawn in
      rw (sym (same e)) (omega arith, omega (arith, below))

  lengthened-le :
      (base jitter : ℕ) (s : S) (d : ℕ) (s' : S)
      → lengthened rand (pos jitter) base s ≡ (ok d, s')
      → (base ≤ d) × (d ≤ base + jitter)
  lengthened-le base zero s d s' h = rw (sym (same h)) (omega arith, omega arith)
  lengthened-le base (suc jitter) s d s' h =
      let (more, t, drawn, e) = >>=-eq-ok (rand.draw (suc jitter + 1)) _ s h in
      let below = bounded.draws (suc jitter + 1) s more t drawn in
      rw (sym (same e)) (omega arith, omega (arith, below))

  -- A random expiration is at least nine tenths of the base, and at most that and two tenths of it
  -- and the jitter.
  pub get_random_expiration_bounds :
      (base jitter : ℕ) (s : S) (d : ℕ) (s' : S)
      → get_random_expiration rand (pos (suc base)) (pos jitter) s ≡ (ok d, s')
      → (rand.nine_tenths (suc base) ≤ d)
        × (d ≤ rand.nine_tenths (suc base) + rand.two_tenths (suc base) + jitter)
  unfolding get_random_expiration randomize_td
  get_random_expiration_bounds base jitter s d s' h =
      let (b, t, spreads, e) =
        >>=-eq-ok (spread rand (rand.nine_tenths (suc base)) (rand.two_tenths (suc base)))
          (lengthened rand (pos jitter)) s h in
      let (low, high) =
        spread-le (rand.nine_tenths (suc base)) (rand.two_tenths (suc base)) s b t spreads in
      let (low', high') = lengthened-le b jitter t d s' e in (omega arith, omega arith)

-- What a draw keeps, the choice of a time to live keeps.
module _ {S : Type 0} {P : S → Type 0} (rand : Rand S) where
  spread-Keeps :
      (base range : ℕ) → ((n : ℕ) → Keeps P (rand.draw n)) → Keeps P (spread rand base range)
  spread-Keeps base zero draws = search keeps_rules
  spread-Keeps base (suc range) draws = search (keeps_rules, draws)

  randomize-Keeps : (t : ℤ) → ((n : ℕ) → Keeps P (rand.draw n)) → Keeps P (randomize_td rand t)
  unfolding randomize_td
  randomize-Keeps t draws = search (keeps_rules, spread-Keeps)

  pub Keeps-get_random_expiration :
      (base jitter : ℤ)
      → ((n : ℕ) → Keeps P (rand.draw n))
      → Keeps P (get_random_expiration rand base jitter)
  unfolding get_random_expiration
  Keeps-get_random_expiration base jitter draws =
      search (keeps_rules, randomize-Keeps, draws) depth 8
