-- ===== src/Service/Session/Issued.antt =====
-- What `Issue` of internal/service/session_service.go answers with, `Validate` accepts.
use aita.Common.{
  ◌+◌, ℤ, is_nonpos, String, ◌≡◌, refl, ◌∙◌, Bool, true, false, Option, none, some, arith,
  if◌then◌else◌,
}
use aita.Errcode.{required_field_missing}
use aita.Exec.{
  ok, Exec, ◌>>=◌, >>=-eq-ok, pure, fail, lift, Attempt, returned, failed, attempt,
  attempt-eq-returned, wrap_err,
}
use aita.Models.{Time}
use aita.Dto.Session.{SessionRecord, AuthRecord, to_auth_record}
use aita.Service.Session.{
  SessionRepository, UserInfoProvider, TokenManager, session_duration, require, issue,
}

-- The session that `Issue` creates.
abbrev pub new_session : Time → Time → ℤ → String → SessionRecord
new_session now now' user_id token_hash = record {
  user_id = user_id;
  token_hash = token_hash;
  expires_at = now + session_duration;
  created_at = now';
}

module _ {S : Type 0} (repo : SessionRepository S) (users : UserInfoProvider S)
    (tm : TokenManager S) (now now' : Time) (user_id : ℤ) where
  -- The token that was drawn, and the repository's `Create`.
  pub record Issues (s : S) (a : AuthRecord) (s' : S) : Type 0 where
    pub token : String
    pub drawn_in : S
    pub drawn : tm.generate 32 s ≡ (ok token, drawn_in)
    pub saved : SessionRecord
    pub created :
        repo.create (new_session now now' user_id (tm.hash token)) drawn_in ≡ (ok (some saved), s')
    pub answer : some a ≡ to_auth_record (some saved) token

  required-ok :
      (o : Attempt (Option SessionRecord)) (token : String) (s : S) (a : AuthRecord) (s' : S)
      → (do saved ← lift (require o); pure (to_auth_record (some saved) token)) s
        ≡ (ok (some a), s')
      → (r : SessionRecord) × (o ≡ returned (some r))
        × (some a ≡ to_auth_record (some r) token)
        × (s ≡ s')
  required-ok (failed e) token s a s' h = cc
  required-ok (returned none) token s a s' h = cc
  required-ok (returned (some r)) token s a s' h = (r, refl, ground arith, ground arith)

  wrap_err-ok :
      (m : Exec S String) (s : S) (x : String) (s' : S)
      → wrap_err m s ≡ (ok x, s')
      → m s ≡ (ok x, s')
  wrap_err-ok m s x s' h = ground (arith, h)

  pub issue-Issues :
      (s : S) (a : AuthRecord) (s' : S)
      → issue repo users tm now now' user_id s ≡ (ok (some a), s')
      → Issues s a s'
  unfolding issue
  issue-Issues s a s' h = by_id (is_nonpos user_id) h
    where
      by_id :
          (b : Bool)
          → (if b then fail required_field_missing else do
            token ← wrap_err (tm.generate 32)
            created ← attempt (repo.create (new_session now now' user_id (tm.hash token)))
            saved ← lift (require created)
            pure (to_auth_record (some saved) token))
              s
            ≡ (ok (some a), s')
          → Issues s a s'
      by_id true k = cc
      by_id false k =
          let (token, s1, drawn, k1) = >>=-eq-ok (wrap_err (tm.generate 32)) _ s k in
          let (o, s2, made, k2) =
            >>=-eq-ok (attempt (repo.create (new_session now now' user_id (tm.hash token)))) _ s1
              k1 in
          let (r, was, answer, here) = required-ok o token s2 a s' k2 in
          record {
            token = token;
            drawn_in = s1;
            drawn = wrap_err-ok (tm.generate 32) s token s1 drawn;
            saved = r;
            created =
                attempt-eq-returned (repo.create (new_session now now' user_id (tm.hash token))) s1
                  (some r) s' (made ∙ (λ i. (ok (was i), here i)));
            answer = answer;
          }
