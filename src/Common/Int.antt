-- ===== src/Common/Int.antt =====
-- Signed integers over the native numbers: Go's int64 where the sign matters (identifiers, which
-- the services test by `<= 0`, and the deltas and values of the counters).
use Prim.Native.Nat.{◌<◌, ℕ, zero, suc, ◌+◌, ◌-◌, ◌*◌, ◌%◌}
use mathlib.Core.Path.{◌≡◌, refl, ap}
use mathlib.Core.Logic.{◌↔◌, ◌≢◌}
use mathlib.Core.Bool.{Bool, true, false}
use native.Mathlib.Omega.{arith}
use aita.Common.Tests.{ltb, lt→ltb, leb, nat_eq, if◌then◌else◌}

-- `negsuc n` is -(n + 1).
pub data ℤ : Type 0 where
  pos : ℕ → ℤ
  negsuc : ℕ → ℤ

-- From -2^63 to 2^63 - 1.
abbrev pub IsInt64 : ℤ → Type 0
IsInt64 (pos n) = n < 9_223_372_036_854_775_808
IsInt64 (negsuc n) = n < 9_223_372_036_854_775_808

abbrev pub pos_part : ℤ → ℕ
pos_part (pos n) = n
pos_part (negsuc n) = 0

abbrev pub neg_part : ℤ → ℕ
neg_part (pos n) = 0
neg_part (negsuc n) = suc n

-- a - b, as an integer.
abbrev pub sub_ℕ : ℕ → ℕ → ℤ
sub_ℕ a b = if leb b a then pos (a - b) else negsuc (b - a - 1)

infixl 65 ◌+ℤ◌
abbrev pub ◌+ℤ◌ : ℤ → ℤ → ℤ
a +ℤ b = sub_ℕ (pos_part a + pos_part b) (neg_part a + neg_part b)

abbrev pub leb_ℤ : ℤ → ℤ → Bool
leb_ℤ a b = leb (pos_part a + neg_part b) (pos_part b + neg_part a)

-- The guard `id <= 0`.
abbrev pub is_nonpos : ℤ → Bool
is_nonpos (pos zero) = true
is_nonpos (pos (suc n)) = false
is_nonpos (negsuc n) = true

abbrev pub int_eq : ℤ → ℤ → Bool
int_eq (pos a) (pos b) = nat_eq a b
int_eq (negsuc a) (negsuc b) = nat_eq a b
int_eq (pos a) (negsuc b) = false
int_eq (negsuc a) (pos b) = false

pub int_eq→eq : (a b : ℤ) → int_eq a b ≡ true → a ≡ b
int_eq→eq a b h = ground arith

pub int_eq_refl : (a : ℤ) → int_eq a a ≡ true
int_eq_refl (pos a) = ground arith
int_eq_refl (negsuc a) = ground arith

pub int_eq_iff : (a b : ℤ) → (int_eq a b ≡ true) ↔ (a ≡ b)
int_eq_iff a b = (int_eq→eq a b, λ e. ground (arith, int_eq_refl a))

pub int_eq_ne : (a b : ℤ) → a ≢ b → int_eq a b ≡ false
int_eq_ne a b h = ground (arith, h, int_eq→eq a b)

infixl 70 ◌*ℤ◌
abbrev pub ◌*ℤ◌ : ℤ → ℤ → ℤ
a *ℤ b =
    sub_ℕ (pos_part a * pos_part b + neg_part a * neg_part b)
      (pos_part a * neg_part b + neg_part a * pos_part b)

abbrev signed : ℕ → ℤ
signed m =
    if ltb m 9_223_372_036_854_775_808 then pos m else negsuc (18_446_744_073_709_551_615 - m)

abbrev complement : ℤ → ℤ
complement (pos n) = negsuc n
complement (negsuc n) = pos n

-- What is left of a result in 64 bits, the two's complement.
unfoldable pub wrap_int : ℤ → ℤ
wrap_int (pos n) = signed (n % 18_446_744_073_709_551_616)
wrap_int (negsuc n) = complement (signed (n % 18_446_744_073_709_551_616))

mod_fits : (n : ℕ) → n < 9_223_372_036_854_775_808 → n % 18_446_744_073_709_551_616 ≡ n
mod_fits n h = omega arith

signed-fits :
    (n : ℕ) → n < 9_223_372_036_854_775_808 → signed (n % 18_446_744_073_709_551_616) ≡ pos n
signed-fits n h = rw (mod_fits n h) (rw (lt→ltb n 9_223_372_036_854_775_808 h) refl)

pub wrap_int-fits : (z : ℤ) → IsInt64 z → wrap_int z ≡ z
unfolding wrap_int
wrap_int-fits (pos n) h = signed-fits n h
wrap_int-fits (negsuc n) h = ap complement (signed-fits n h)
