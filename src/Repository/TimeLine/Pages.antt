-- ===== src/Repository/TimeLine/Pages.antt =====
-- Which members of a timeline a page shows: internal/repository/timeline_repository.go over
-- internal/cache/timeline_cache.go.
use aita.Common.{
  ℕ, zero, suc, ◌+◌, ◌*◌, ℤ, pos, negsuc, ◌+ℤ◌, ◌*ℤ◌, IsInt64, wrap_int, wrap_int-fits, ap, leb_ℤ,
  nat_eq, ◌≡◌, ◌∙◌, refl, true, false, [], arith, if◌then◌else◌,
}
use aita.Exec.{◌>>=◌, pure}
use aita.Pkg.Redis.{timeline, z_range_rev, Client, as_texts, ask}
use aita.Pkg.Utils.{Rand}
use aita.Dto.TimeLine.{Codec}
use aita.Cache.TimeLine.{find_range, parsed, as_cache}
use aita.Repository.TimeLine.{get_home_time_line}

product_lem : (p n : ℕ) → pos p *ℤ pos (suc n) ≡ pos (p * suc n)
product_lem p n = ground arith

sum_lem : (m n : ℕ) → pos m +ℤ pos (suc n) ≡ pos (m + suc n)
sum_lem m n = ground arith

less_one : (m n : ℕ) → pos (m + suc n) +ℤ negsuc 0 ≡ pos (m + n)
less_one m n = ground arith

start_lem :
    (p n : ℕ)
    → IsInt64 (pos (p * suc n + suc n))
    → wrap_int (pos p *ℤ pos (suc n)) ≡ pos (p * suc n)
start_lem p n fits =
    ap wrap_int (product_lem p n) ∙ wrap_int-fits (pos (p * suc n)) (omega (arith, fits))

stop_lem :
    (m n : ℕ)
    → IsInt64 (pos (m + suc n))
    → wrap_int (wrap_int (pos m +ℤ pos (suc n)) +ℤ negsuc 0) ≡ pos (m + n)
stop_lem m n fits =
    rw (sum_lem m n, wrap_int-fits (pos (m + suc n)) fits, less_one m n)
      (wrap_int-fits (pos (m + n)) (omega (arith, fits)))

one_member : (m : ℕ) → leb_ℤ (pos (m + 0)) (pos m) ≡ true
one_member m = ground arith

more_members : (m n : ℕ) → leb_ℤ (pos (m + suc n)) (pos m) ≡ false
more_members m n = ground arith

suc_ne_zero : (k : ℕ) → nat_eq (suc k) 0 ≡ false
suc_ne_zero k = ground arith

module _ {S : Type 0} (c : Codec) (rand : Rand S) (client : Client S) where
  -- Page p of size n + 1 is made of the members of the timeline from rank p(n + 1) to rank p(n + 1)
  -- + n, newest first, that are numbers; but a page of size 1 is empty, and Redis is not asked for
  -- it. This holds where p(n + 1) + n + 1 fits into 64 bits.
  pub get_home_time_line_pages :
      (user_id : ℤ) (p n : ℕ) (s : S)
      → IsInt64 (pos (p * suc n + suc n))
      → get_home_time_line (as_cache c rand client) user_id (pos p) (pos (suc n)) s
        ≡ (if nat_eq n 0 then pure [] else do
          res ←
              ask client as_texts
                (z_range_rev (timeline user_id) (pos (p * suc n)) (pos (p * suc n + n)))
          pure (parsed c res))
            s
  unfolding get_home_time_line find_range as_cache
  get_home_time_line_pages user_id p n s fits =
      rw (start_lem p n fits) (rw (stop_lem (p * suc n) n fits) (by_size n))
    where
      by_size :
          (k : ℕ)
          → find_range c rand client user_id (pos (p * suc n)) (pos (p * suc n + k)) s
            ≡ (if nat_eq k 0 then pure [] else do
              res ←
                  ask client as_texts
                    (z_range_rev (timeline user_id) (pos (p * suc n)) (pos (p * suc n + k)))
              pure (parsed c res))
                s
      by_size zero = rw (one_member (p * suc n)) refl
      by_size (suc k) = rw (more_members (p * suc n) k, suc_ne_zero k) refl
