-- ===== src/Tests/Wirings.antt =====
-- The user repository over a table of one user, and the follow service over it.
use aita.Pkg.Json.{Json}
use aita.Cache.User.{as_cache}
use aita.Tests.Memory.{Memory, memory, refusing}
use aita.Common.{
  ◌<◌, ℤ, pos, int_eq, int_eq_iff, ◌≡◌, refl, inl, inr, Bool, true, false, ◌||◌, Bool-cases, In,
  none, some, List, [], ◌∷◌, if◌then◌else◌, arith, subst, sym,
}
use aita.Errcode.{wrapped}
use aita.Exec.{ok, err}
use aita.Models.{UserInfo}
use aita.Pkg.Pool.{Pool}
use aita.Pkg.Singleflight.{Group, calm}
use aita.Db.Driver.{rows, failure, other, no_rows}
use aita.Db.User.{UserTable, too_many_ids}
use aita.Repository.Batch.Agree.{Answers}
use aita.Repository.User.{UserStore, InfoMap, Task, Flown, id_of}
use aita.Service.User.{PasswordHasher}
use aita.Service.Follow.{FollowRepository, get_followers}
use aita.Service.Follow.Wiring.{service, get_followers_long}
use aita.Tests.Caches.{many, length-many, codec, rand_of}

abbrev pub alice : UserInfo
alice = record { id = pos 7; username = "alice" }

abbrev pub truth : InfoMap
truth id = if int_eq (pos 7) id then some alice else none

abbrev has : ℤ → List ℤ → Bool
has id [] = false
has id (j ∷ js) = int_eq id j || has id js

abbrev pub found : List ℤ → List UserInfo
found ids = if has (pos 7) ids then alice ∷ [] else []

In-has : (id : ℤ) (ids : List ℤ) → In id ids → has id ids ≡ true
In-has id [] i = elim i [ ]
In-has id (j ∷ js) (inl e) = rw ((int_eq_iff id j).1 e) refl
In-has id (j ∷ js) (inr i) = elim (Bool-cases (int_eq id j)) [
  | inl same ↦ rw same refl
  | inr apart ↦ rw apart (In-has id js i)
]

truth-id : (id : ℤ) (t : UserInfo) → truth id ≡ some t → (pos 7 ≡ id) × (alice ≡ t)
truth-id id t h = by_test (int_eq (pos 7) id) refl h
  where
    by_test :
        (b : Bool)
        → int_eq (pos 7) id ≡ b
        → (if b then some alice else none) ≡ some t
        → (pos 7 ≡ id) × (alice ≡ t)
    by_test true same e = ((int_eq_iff (pos 7) id).0 same, ground arith)
    by_test false apart e = cc

pub answers : (ids : List ℤ) → Answers id_of truth ids (found ids)
answers ids = elim (Bool-cases (has (pos 7) ids)) [
  | inl there ↦
      rw there
        (record { sound = (refl, tt); complete = λ id t i h. ground (arith, truth-id id t h) })
  | inr missing ↦ rw missing (record {
    sound = tt;
    complete = λ id t i h. absurd (cc (In-has id ids i, missing, (truth-id id t h).0));
  })
]

abbrev pub store : {S : Type 0} → UserStore S
store = record {
  create = λ u s. (ok u, s);
  get_by_email = λ email s. (ok none, s);
  get_full_by_id = λ id s. (ok none, s);
  increase_follower_count = λ ctx id delta s. (ok tt, s);
  increase_following_count = λ ctx id delta s. (ok tt, s);
  get_names_by_ids = λ ids s. (ok (found ids), s);
}

-- A Redis that is empty.
abbrev empty : Memory
empty k = none

abbrev json : Json UserInfo
json = record { marshal = λ i. ok "user"; unmarshal = λ v. ok alice }

abbrev pub pool : {S : Type 0} → Pool S Task
pool = record { submit = λ t s. (ok tt, s) }

abbrev pub flights : {S : Type 0} → Group S Flown
flights = record { do_chan = λ key fn. fn }

abbrev table : UserTable Memory
table = record {
  insert = λ name email hash s. (failure other, s);
  select_by_email = λ email s. (failure no_rows, s);
  select_by_id = λ id s. (failure no_rows, s);
  add_to_follower_count = λ delta id s. (rows 1, s);
  add_to_following_count = λ delta id s. (rows 1, s);
  select_names = λ ids s. (rows (found ids), s);
}

abbrev hasher : PasswordHasher Memory
hasher = record { generate = λ p s. (ok p, s); compare = λ h p s. (ok tt, s) }

abbrev popular : FollowRepository Memory
popular = record {
  create = λ ctx a b s. (ok none, s);
  check_relation = λ a b s. (ok none, s);
  get_followings = λ a s. (ok [], s);
  get_followers = λ a s. (ok (many 501), s);
  remove_follow = λ ctx a b s. (ok tt, s);
}

get_followers_long_example :
    (get_followers
      (service table table
        (as_cache codec json (rand_of Memory) memory)
        pool
        flights
        hasher
        calm
        popular
        none)
      (pos 3)
      empty).0
    ≡ err (wrapped too_many_ids)
get_followers_long_example =
    get_followers_long (λ s k. s k) memory refusing json codec (rand_of Memory) table table pool
      flights hasher calm popular none (pos 3) (pos 7) (many 501) empty empty refl refl
      (subst (λ n. 500 < n) (sym (length-many 501)) (omega arith)) (inl refl) refl refl
