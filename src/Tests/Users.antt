-- ===== src/Tests/Users.antt =====
-- Logins and follows.
use aita.Common.{
  ℕ, suc, pos, String, str_eq, ◌≡◌, refl, ap, sym, true, Option, none, some, [], arith,
  if◌then◌else◌,
}
use aita.Errcode.{
  sentinel, wrapped, foreign, user_not_found, is_user_not_found, invalid_credentials,
}
use aita.Exec.{Result, ok, err, panic, Exec}
use aita.Dto.User.{UserRecord}
use aita.Service.User.{UserRepository, PasswordHasher, new_user, exists_by_email, login}
use aita.Service.User.Laws.{login_sound, unknown, login_uniform}
use aita.Db.Transactor.{Ctx, TxDriver, exec}
use aita.Db.Transactor.Atomic.{IsTransactional}
use aita.Service.Follow.{FollowRepository, CountManager, new_follow_service, follow, follow_in}
use aita.Service.Follow.Laws.{follow_panics}
use aita.Service.Follow.Atomic.{IsThroughTx, follow_atomic}

abbrev alice : UserRecord
alice = record (new_user "alice" "alice@example.com" "hashed secret") { id = pos 7 }

abbrev by_address : String → Result (Option UserRecord)
by_address email =
    if str_eq email "alice@example.com"
    then ok (some alice)
    else err (wrapped (sentinel user_not_found))

abbrev accounts : UserRepository Unit
accounts = record {
  create = λ u s. (ok (some u), s);
  get_by_email = λ email s. (by_address email, s);
  get_full_by_id = λ id s. (ok (some alice), s);
  increase_follower = λ id delta s. (ok tt, s);
  increase_following = λ id delta s. (ok tt, s);
  exists = λ id s. (ok true, s);
  get_base_infos = λ ids s. (ok [], s);
}

abbrev matches : String → String → Result (Unit {0})
matches hash password =
    if str_eq hash "hashed secret"
    then (if str_eq password "secret" then ok tt else err (foreign 8))
    else err (foreign 8)

abbrev hasher : PasswordHasher Unit
hasher = record { generate = λ p s. (ok "hashed secret", s); compare = λ h p s. (matches h p, s) }

login_sound_example :
    (user : UserRecord) × (s' : Unit) × (accounts.get_by_email "alice@example.com" tt
      ≡ (ok (some user), s'))
    × (hasher.compare user.password_hash "secret" s' ≡ (ok tt, tt))
    × (some alice ≡ some user)
login_sound_example =
    login_sound accounts hasher "alice@example.com" "secret" tt tt (some alice)
      (unfold login exists_by_email in refl)

login_uniform_example :
    login accounts hasher "bob@example.com" "secret" tt ≡ (err (sentinel invalid_credentials), tt)
login_uniform_example =
    login_uniform accounts hasher "bob@example.com" "secret" tt tt refl refl
      (unknown (wrapped (sentinel user_not_found)) (unfold is_user_not_found in refl) refl)

-- A table that is a number, with what it was when the transaction began.
abbrev Tables : Type 0
Tables = ℕ × ℕ

abbrev driver : TxDriver Tables
driver = record {
  begin = λ s. (ok tt, (s.0, s.0));
  rollback = λ s. (ok tt, (s.1, s.1));
  commit = λ s. (ok tt, (s.0, s.0));
}

law : IsTransactional driver (λ s. s.0) (λ s. s.1)
law = record {
  begun = λ s s' h. ap (λ p. p.1.1) (sym h);
  not_begun = λ e s s' h. cc;
  rolled_back = λ s. refl;
  not_committed = λ e s s' h. cc;
}

-- It writes a row, and the counter's update fails.
abbrev follows : FollowRepository Tables
follows = record {
  create = λ ctx a b s. (ok none, (suc s.0, s.1));
  check_relation = λ a b s. (ok none, s);
  get_followings = λ a s. (ok [], s);
  get_followers = λ a s. (ok [], s);
  remove_follow = λ ctx a b s. (ok tt, s);
}

abbrev counters : CountManager Tables
counters = record {
  update_following_count = λ ctx id delta s. (ok tt, s);
  update_follower_count = λ ctx id delta s. (err (foreign 8), (suc s.0, s.1));
  exists = λ id s. (ok true, s);
  get_info_lists = λ ids s. (ok [], s);
}

through : IsThroughTx driver (λ s. s.0) (λ s. s.1) follows counters
through = record {
  creates = λ a b d. record { at = λ s h. h };
  counts_followers = λ a b d. record { at = λ s h. h };
  counts_followings = λ a b d. record { at = λ s h. h };
  looks = λ a s. refl;
}

follow_panics_example :
    follow (new_follow_service follows counters) (pos 1) (pos 2) (4, 0) ≡ (panic, (4, 0))
follow_panics_example =
    follow_panics follows counters (pos 1) (pos 2) (4, 0) (4, 0) refl refl (λ e. ground arith) refl

abbrev before : Tables
before = (4, 0)

abbrev after : Tables
after = (4, 4)

follow_atomic_example : after.0 ≡ before.0
follow_atomic_example =
    follow_atomic driver (λ s. s.0) (λ s. s.1) follows counters law through (pos 1) (pos 2) before
      after (wrapped (foreign 8)) (unfold follow follow_in exec in refl)

-- Two rows are written before the failure.
abbrev writes_twice : Ctx → Exec Tables Unit
writes_twice ctx s = (err (foreign 8), (suc (suc s.0), s.1))
