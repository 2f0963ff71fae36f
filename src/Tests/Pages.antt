-- ===== src/Tests/Pages.antt =====
-- The second page, of three tweets, of a timeline that is read from Redis.
use aita.Common.{arith, suc, ◌+◌, ◌*◌, ◌/◌, pos, nat_eq, ◌≡◌, none, [], ◌∷◌, if◌then◌else◌}
use aita.Exec.{ok, ◌>>=◌, pure}
use aita.Dto.TimeLine.{Codec}
use aita.Cache.TimeLine.{parsed, as_cache}
use aita.Pkg.Redis.{timeline, z_range_rev, Client, texts, as_texts, ask}
use aita.Pkg.Utils.{Rand}
use aita.Repository.TimeLine.{get_home_time_line}
use aita.Repository.TimeLine.Pages.{get_home_time_line_pages}

-- Every text is read as 3.
abbrev codec : Codec
codec = record {
  format = λ z. "3";
  parse_int = λ s. (pos 3, none);
  unix = λ t. pos t;
  from_unix = λ z. 0;
}

abbrev rand : Rand Unit
rand = record { draw = λ n s. (ok 0, s); nine_tenths = λ n. n * 9 / 10; two_tenths = λ n. n / 5 }

abbrev client : Client Unit
client = record { run = λ c s. (texts ("3" ∷ "3" ∷ []), s); pipeline = λ cs s. ((none, []), s) }

get_home_time_line_pages_example :
    get_home_time_line (as_cache codec rand client) (pos 7) (pos 1) (pos 3) tt
    ≡ (if nat_eq 2 0 then pure [] else do
      res ←
          ask client as_texts
            (z_range_rev (timeline (pos 7)) (pos (1 * suc 2)) (pos (1 * suc 2 + 2)))
      pure (parsed codec res))
        tt
get_home_time_line_pages_example =
    get_home_time_line_pages codec rand client (pos 7) 1 2 tt (omega arith)
