-- ===== src/Service/User/Laws.antt =====
-- Who may log in: internal/service/user_service.go.
use aita.Common.{
  String, str_eq, ◌≡◌, refl, Bool, true, false, ◌||◌, Option, none, some, arith, if◌then◌else◌,
}
use aita.Errcode.{Error, sentinel, required_field_missing, invalid_credentials, is_user_not_found}
use aita.Exec.{
  ok, err, Attempt, returned, failed, ◌>>=◌, >>=-eq-ok, attempt-eq-returned, fail, attempt,
}
use aita.Dto.User.{UserRecord}
use aita.Service.Tweet.{deref}
use aita.Service.User.{UserRepository, PasswordHasher, exists_by_email, by_email, compared, login}

module _ {S : Type 0} (repo : UserRepository S) (hasher : PasswordHasher S) where
  by_email_sound :
      (found : Attempt (Option UserRecord)) (s s' : S) (o : Option UserRecord)
      → by_email repo hasher found s ≡ (ok o, s')
      → (found ≡ returned o) × (s ≡ s')
  by_email_sound (returned user) s s' o h = (ground arith, ground arith)
  by_email_sound (failed e) s s' o h = ground arith

  exists_by_email_sound :
      (email : String) (s s' : S) (o : Option UserRecord)
      → exists_by_email repo hasher email s ≡ (ok o, s')
      → repo.get_by_email email s ≡ (ok o, s')
  unfolding exists_by_email
  exists_by_email_sound email s s' o h = ground arith

  compared_sound :
      (user : UserRecord) (verdict : Attempt (Unit {0})) (s s' : S) (o : Option UserRecord)
      → compared repo hasher user verdict s ≡ (ok o, s')
      → (verdict ≡ returned tt) × (o ≡ some user) × (s ≡ s')
  compared_sound user (returned x) s s' o h = (ground arith, ground arith, ground arith)
  compared_sound user (failed e) s s' o h = cc

  login_found :
      (password : String) (o : Option UserRecord) (s s'' : S) (a : Option UserRecord)
      → (do
        user ← deref o
        verdict ← attempt (hasher.compare user.password_hash password)
        compared repo hasher user verdict)
          s
        ≡ (ok a, s'')
      → (user : UserRecord) × (o ≡ some user)
        × (hasher.compare user.password_hash password s ≡ (ok tt, s''))
        × (a ≡ some user)
  login_found password none s s'' a h = cc
  login_found password (some user) s s'' a h =
      let (v, t, p, q) =
        >>=-eq-ok (attempt (hasher.compare user.password_hash password)) (compared repo hasher user)
          s h in
      let (e, f, g) = compared_sound user v t s'' a q in
      (
        user,
        refl,
        attempt-eq-returned (hasher.compare user.password_hash password) s tt s'' (cc (p, e, g)),
        f,
      )

  login_body :
      (b : Bool) (email password : String) (s s'' : S) (a : Option UserRecord)
      → (if b then fail required_field_missing else do
        found ← exists_by_email repo hasher email
        user ← deref found
        verdict ← attempt (hasher.compare user.password_hash password)
        compared repo hasher user verdict)
          s
        ≡ (ok a, s'')
      → (user : UserRecord) × (s' : S) × (repo.get_by_email email s ≡ (ok (some user), s'))
        × (hasher.compare user.password_hash password s' ≡ (ok tt, s''))
        × (a ≡ some user)
  login_body true email password s s'' a h = cc
  login_body false email password s s'' a h =
      let (o, t, p, q) = >>=-eq-ok (exists_by_email repo hasher email) _ s h in
      let (user, e, f, g) = login_found password o t s'' a q in
      (user, t, cc (exists_by_email_sound email s t o p, e), f, g)

  -- A login succeeds only for the user that the repository has under the email, and only if the
  -- hasher accepts the password against that user's hash.
  pub login_sound :
      (email password : String) (s s'' : S) (a : Option UserRecord)
      → login repo hasher email password s ≡ (ok a, s'')
      → (user : UserRecord) × (s' : S) × (repo.get_by_email email s ≡ (ok (some user), s'))
        × (hasher.compare user.password_hash password s' ≡ (ok tt, s''))
        × (a ≡ some user)
  unfolding login
  login_sound email password s s'' a h =
      login_body (str_eq email "" || str_eq password "") email password s s'' a h

  -- The two ways to be denied: nobody has the email, or the password is not the user's.
  pub data Denied (email password : String) (s s' : S) : Type 0 where
    unknown :
        (e : Error)
        → is_user_not_found e ≡ true
        → repo.get_by_email email s ≡ (err e, s')
        → Denied email password s s'
    mismatch :
        (user : UserRecord) (t : S) (e : Error)
        → repo.get_by_email email s ≡ (ok (some user), t)
        → hasher.compare user.password_hash password t ≡ (err e, s')
        → Denied email password s s'

  -- An email that nobody has and a password that is not the user's get the same answer.
  pub login_uniform :
      (email password : String) (s s' : S)
      → str_eq email "" ≡ false
      → str_eq password "" ≡ false
      → Denied email password s s'
      → login repo hasher email password s ≡ (err (sentinel invalid_credentials), s')
  unfolding login exists_by_email
  login_uniform email password s s' named given (unknown e gone q) = rw (named, given, q) (rw gone)
  login_uniform email password s s' named given (mismatch user t e q w) =
      rw (named, given, q) (rw w)
