-- ===== src/Tests/Sessions.antt =====
-- Sessions, with a map from hashes to sessions for the repository.
use Prim.Native.String.{len, slice}
use aita.Common.{
  ◌+◌, ◌≤◌, pos, String, str_eq, ◌≡◌, ◌≢◌, ◌↔◌, ◌⊎◌, refl, inl, inr, true, ◌||◌, Bool-cases, Option,
  none, some, [], ◌∷◌, arith, if◌then◌else◌,
}
use aita.Errcode.{sentinel, session_not_found, forbidden}
use aita.Exec.{Result, ok, err, wrap_err}
use aita.Models.{Time}
use aita.Dto.Session.{SessionRecord, AuthRecord}
use aita.Service.Session.{
  max_session_life, session_duration, SessionRepository, UserInfoProvider, TokenManager,
  should_refresh, validate_and_hash, authenticate, new_expiry, execute_refresh, issue, validate,
  revoke, refresh_async,
}
use aita.Service.Session.Laws.{
  Authenticates, Grants, validate_iff, revoke_foreign, execute_refresh_lem,
}
use aita.Service.Session.Lifetime.{
  OnlyDrops, OnlyWrites, IsSessionStore, issues, refreshes, here, next, Reach-IsCapped,
}
use aita.Api.Auth.{Strings, extract_bearer_token, auth_middleware}
use aita.Api.Auth.Identity.{session_service, auth_middleware-Grants}

abbrev pub Sessions : Type 0
Sessions = String → Option SessionRecord

abbrev pub write : SessionRecord → Sessions → Sessions
write r s h = if str_eq h r.token_hash then some r else s h

abbrev pub drop : SessionRecord → Sessions → Sessions
drop r s h = if str_eq h r.token_hash then none else s h

abbrev pub found : Option SessionRecord → Result (Option SessionRecord)
found none = err (sentinel session_not_found)
found (some r) = ok (some r)

abbrev pub repo : SessionRepository Sessions
repo = record {
  create = λ r s. (ok (some r), write r s);
  get = λ h s. (found (s h), s);
  update = λ r s. (ok tt, write r s);
  delete = λ r s. (ok tt, drop r s);
}

abbrev pub users : UserInfoProvider Sessions
users = record { exists = λ id s. (ok true, s) }

abbrev pub token : String
token = "0123456789abcdef0123456789abcdef"

-- The hash of a token is its first half.
abbrev pub tm : TokenManager Sessions
tm = record { generate = λ n s. (ok token, s); hash = λ t. slice t 0 16 }

abbrev pub empty : Sessions
empty h = none

abbrev pub session : SessionRecord
session = record {
  user_id = pos 7;
  token_hash = "0123456789abcdef";
  expires_at = 900;
  created_at = 100;
}

abbrev pub held : Sessions
held = write session empty

write-OnlyWrites : (r : SessionRecord) (s : Sessions) → OnlyWrites (λ t. t) r s (write r s)
write-OnlyWrites r s = record {
  each = λ h. elim (Bool-cases (str_eq h r.token_hash)) [
    | inl same ↦ rw same (inr (inr refl))
    | inr other ↦ rw other (inl refl)
  ];
}

drop-OnlyDrops : (r : SessionRecord) (s : Sessions) → OnlyDrops (λ t. t) s (drop r s)
drop-OnlyDrops r s = record {
  each = λ h. elim (Bool-cases (str_eq h r.token_hash)) [
    | inl same ↦ rw same (inr refl)
    | inr other ↦ rw other (inl refl)
  ];
}

same-OnlyDrops : (s : Sessions) → OnlyDrops (λ t. t) s s
same-OnlyDrops s = record { each = λ h. inl refl }

store : IsSessionStore (λ t. t) repo users tm
store = record {
  creates = write-OnlyWrites;
  gets = λ h s. same-OnlyDrops s;
  updates = write-OnlyWrites;
  deletes = drop-OnlyDrops;
  looks = λ id s. same-OnlyDrops s;
  draws = λ n s. same-OnlyDrops s;
}

abbrev pub answer : AuthRecord
answer = record { user_id = pos 7; token = token; expires_at = 900; created_at = 100 }

validate_iff_example :
    (validate repo users tm 200 token held ≡ (ok (some answer), held))
    ↔ Grants repo users tm 200 token held (some answer) held
validate_iff_example = validate_iff repo users tm 200 token held (some answer) held

-- Nothing is granted after the expiry.
validate_expired : (validate repo users tm 901 token held).0 ≢ ok (some answer)
unfolding validate authenticate
validate_expired = ground arith

authentic : Authenticates repo users tm 200 token held session held
authentic = record {
  nonempty = refl;
  long_enough = omega arith;
  short_enough = omega arith;
  fetched = refl;
  alive = record {
    expiry_known = omega arith;
    creation_known = omega arith;
    unexpired = omega arith;
    in_life = omega arith;
  };
}

revoke_foreign_example :
    revoke repo users tm 200 (pos 8) token held ≡ (err (sentinel forbidden), held)
revoke_foreign_example =
    revoke_foreign repo users tm 200 (pos 8) token held session held authentic (λ e. cc)

execute_refresh_lem_example :
    (e : Time) × (execute_refresh repo users tm 200 token held
      ≡ wrap_err (repo.update (record session { expires_at = e })) held)
    × (e ≤ 200 + session_duration)
    × (e ≤ 100 + max_session_life)
    × ((e ≡ 200 + session_duration) ⊎ (e ≡ 100 + max_session_life))
execute_refresh_lem_example =
    execute_refresh_lem repo users tm 200 token held session held (unfold validate_and_hash in refl)
      refl

abbrev logged_in : Sessions
logged_in = (issue repo users tm 5 6 (pos 7) empty).1

abbrev refreshed : Sessions
refreshed = (execute_refresh repo users tm 9 token logged_in).1

Reach-IsCapped_example : 9 + session_duration ≤ 6 + max_session_life
unfolding issue execute_refresh validate_and_hash new_expiry
Reach-IsCapped_example =
    Reach-IsCapped (λ t. t) repo users tm store empty refreshed (λ h. refl)
      (next (next here (issues 5 6 (pos 7) (omega arith))) (refreshes 9 token)) "0123456789abcdef"
      (record {
        user_id = pos 7;
        token_hash = "0123456789abcdef";
        expires_at = 9 + session_duration;
        created_at = 6;
      })
      refl

-- A header whose scheme has six characters.
abbrev pub lib : Strings
lib = record {
  split_n = λ s sep n. slice s 0 6 ∷ slice s 7 (len s) ∷ [];
  equal_fold = λ s t. str_eq s t || str_eq s "Bearer";
  trim_space = λ s. s;
}

auth_middleware-Grants_example :
    (t : String) × (a : AuthRecord) × (s1 : Sessions) × (extract_bearer_token lib
        "Bearer 0123456789abcdef0123456789abcdef"
      ≡ ok t)
    × (Grants repo users tm 750 t held (some a) s1)
    × (pos 7 ≡ a.user_id)
    × (token ≡ a.token)
auth_middleware-Grants_example =
    auth_middleware-Grants repo users tm (λ m s. (m s).1) 750 751 752 753 lib
      "Bearer 0123456789abcdef0123456789abcdef" held
      (record { user_id = pos 7; token = token; role = "" })
      (execute_refresh repo users tm 753 token held).1
      (unfold auth_middleware session_service validate authenticate should_refresh refresh_async in
        refl)
