-- ===== src/Tests/Caches.antt =====
-- The caches over small clients of Redis: members by timeline, and one list that is cached.
use aita.Tests.Memory.{Memory, memory, present, presence}
use aita.Common.{
  some, ℕ, zero, suc, ap, ◌≤◌, ◌<◌, ◌+◌, ◌*◌, ◌/◌, ℤ, pos, negsuc, int_eq, int_eq→eq, int_eq_refl,
  length, ltb, ◌≡◌, refl, inl, inr, ◌⊎◌, Bool-cases, false, none, List, [], ◌∷◌, ◌++◌,
  if◌then◌else◌, arith, All,
}
use aita.Exec.{Result, ok, panic}
use aita.Dto.TimeLine.{Codec}
use aita.Pkg.Pool.{Pool}
use aita.Pkg.Singleflight.{Group}
use aita.Pkg.Redis.{
  Key, timeline, following, follower, Command, Adds, z_add, z_rem_range_by_rank, done, Client,
}
use aita.Pkg.Utils.{Rand, IsBounded, get_random_expiration, randomize_td}
use aita.Cache.TimeLine.{push_commands, push_all, push_batch, as_cache}
use aita.Cache.TimeLine.Capped.{Ran, IsSortedSets, push_batch-IsCapped}
use aita.Cache.TimeLine.Lifetime.{Brief, push_all-Brief}
use aita.Cache.Follow.{add}
use aita.Cache.Follow.Whole.{add_whole}
use aita.Repository.TimeLine.{as_interface}
use aita.Service.TimeLine.{TweetProvider, Task, Flown, forward}
use aita.Service.TimeLine.Forward.{forward_first_thousand}

abbrev pub codec : Codec
codec = record {
  format = λ z. "3";
  parse_int = λ s. (pos 3, none);
  unix = λ t. pos t;
  from_unix = λ z. 0;
}

-- The least number below the bound; `rand.N` panics where there is none.
abbrev roll : ℕ → Result ℕ
roll zero = panic
roll (suc n) = ok 0

abbrev pub rand_of : (S : Type 0) → Rand S
rand_of S = record {
  draw = λ n s. (roll n, s);
  nine_tenths = λ n. n * 9 / 10;
  two_tenths = λ n. n / 5;
}

-- How many members each user's timeline has.
abbrev Sizes : Type 0
Sizes = ℤ → ℕ

abbrev cut : ℕ → ℕ
cut n = if ltb 1000 n then 1000 else n

abbrev step : Command → Sizes → Sizes
step (z_add (timeline id) members) s = λ j. if int_eq id j then s j + length members else s j
step (z_rem_range_by_rank (timeline id) start stop) s = λ j. if int_eq id j then cut (s j) else s j
step _ s = s

abbrev steps : List Command → Sizes → Sizes
steps [] s = s
steps (c ∷ cs) s = steps cs (step c s)

abbrev members : Client Sizes
members = record { run = λ c s. (done, step c s); pipeline = λ cs s. ((none, []), steps cs s) }

abbrev size : Sizes → Key → ℕ
size s (timeline j) = s j
size s _ = 0

cut-le : (n : ℕ) → cut n ≤ 1000
cut-le n = ground arith

cut-le_self : (n : ℕ) → cut n ≤ n
cut-le_self n = ground arith

trims : (k : Key) (s : Sizes) → size (step (z_rem_range_by_rank k (pos 0) (negsuc 1000)) s) k ≤ 1000
trims (timeline id) s = rw (int_eq_refl id) (cut-le (s id))
trims _ s = omega arith

grows : (c : Command) (k : Key) (s : Sizes) → Adds k c ⊎ (size (step c s) k ≤ size s k)
grows (z_add (timeline id) members) (timeline j) s = elim (Bool-cases (int_eq id j)) [
  | inl same ↦ inl (rw (int_eq→eq id j same) refl)
  | inr apart ↦ inr (rw apart (omega arith))
]
grows (z_rem_range_by_rank (timeline id) start stop) (timeline j) s =
    elim (Bool-cases (int_eq id j)) [
      | inl same ↦ inr (rw same (cut-le_self (s j)))
      | inr apart ↦ inr (rw apart (omega arith))
    ]
grows _ _ s = inr (omega arith)

runs : (cs : List Command) (s s' : Sizes) → steps cs s ≡ s' → Ran members cs s s'
runs [] s s' h = h
runs (c ∷ cs) s s' h = (refl, runs cs (step c s) s' h)

sorted : IsSortedSets members size
sorted = record {
  trims = λ k s h. trims k s;
  grows = grows;
  pipes = λ cs s rs s' h. runs cs s s' (ap (λ p. p.1) h);
}

-- A timeline of 1200, to which a tweet is pushed.
abbrev long : Sizes
long j = if int_eq (pos 7) j then 1200 else 0

abbrev pushed : Sizes
pushed =
    steps
      (z_add (timeline (pos 7)) ((pos 5, pos 3) ∷ [])
        ∷ z_rem_range_by_rank (timeline (pos 7)) (pos 0) (negsuc 1000)
        ∷ [])
      long

run_push : push_batch codec (rand_of Sizes) members (pos 3) (pos 7 ∷ []) 5 long ≡ (ok tt, pushed)
unfolding push_batch push_all get_random_expiration randomize_td
run_push = refl

push_batch-IsCapped_example : size pushed (timeline (pos 7)) ≤ 1000
push_batch-IsCapped_example =
    push_batch-IsCapped members size sorted codec (rand_of Sizes)
      (λ k n m. record { at = λ s h. h }) (pos 3) (pos 7 ∷ []) 5 long pushed (pos 7) run_push
      (inl (inl refl))

roll-lt : (n m : ℕ) → roll n ≡ ok m → m < n
roll-lt zero m h = cc
roll-lt (suc n) m h = ground arith

bounded : IsBounded (rand_of Sizes)
bounded = record { draws = λ n s m s' h. roll-lt n m (ap (λ p. p.0) h) }

run_all :
    push_all codec (rand_of Sizes) members (pos 3) (pos 5) (pos 7 ∷ []) long
    ≡ (ok (push_commands codec (rand_of Sizes) members (pos 3) (pos 5) (pos 7) 64), long)
unfolding push_all get_random_expiration randomize_td
run_all = refl

push_all-Brief_example :
    All Brief (push_commands codec (rand_of Sizes) members (pos 3) (pos 5) (pos 7) 64)
push_all-Brief_example =
    push_all-Brief codec (rand_of Sizes) members (pos 3) (pos 5) (pos 7 ∷ []) long long
      (push_commands codec (rand_of Sizes) members (pos 3) (pos 5) (pos 7) 64) bounded
      (record { nine = λ n. omega arith; two = λ n. omega arith }) run_all

-- A list of n times the same user.
abbrev pub many : ℕ → List ℤ
many zero = []
many (suc n) = pos 7 ∷ many n

pub length-many : (n : ℕ) → length (many n) ≡ n
length-many zero = refl
length-many (suc n) = ap suc (length-many n)

abbrev tweets : TweetProvider Sizes
tweets = record {
  get_tweets = λ ids s. (ok [], s);
  get_my_tweets = λ user page lacking s. (ok [], s);
}

abbrev pool : Pool Sizes Task
pool = record { submit = λ t s. (ok tt, s) }

abbrev flights : Group Sizes Flown
flights = record { do_chan = λ key fn. fn }

forward_first_thousand_example :
    forward
      (as_interface (as_cache codec (rand_of Sizes) members))
      tweets
      pool
      flights
      (pos 3)
      (many 1000 ++ pos 8 ∷ [])
      long
    ≡ forward
        (as_interface (as_cache codec (rand_of Sizes) members))
        tweets
        pool
        flights
        (pos 3)
        (many 1000)
        long
forward_first_thousand_example =
    forward_first_thousand codec (rand_of Sizes) members tweets pool flights (pos 3) (many 1000)
      (pos 8 ∷ []) long (length-many 1000)

-- The followings of user 1 are cached, and nothing else.
abbrev one_list : Memory
one_list (following id) = if int_eq id (pos 1) then some "sorted set" else none
one_list _ = none

add_whole_example :
    present
      (add codec (rand_of Memory) memory (pos 1) (pos 2) (pos 5) one_list).1
      (follower (pos 2))
    ≡ false
add_whole_example =
    add_whole present codec (rand_of Memory) memory presence (λ n k. record { at = λ s h. h })
      (pos 1) (pos 2) (pos 5) (follower (pos 2)) one_list refl
