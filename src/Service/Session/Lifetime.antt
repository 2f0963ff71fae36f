-- ===== src/Service/Session/Lifetime.antt =====
-- How long a session can live, over every sequence of the service's calls.
use aita.Common.{ℕ, ◌+◌, ◌≤◌, ℤ, String, ◌≡◌, ◌⊎◌, Option, none, some, arith}
use aita.Exec.Keeps.{Keeps, keeps_rules}
use aita.Models.{Time}
use aita.Dto.Session.{SessionRecord}
use aita.Service.Session.{
  max_session_life, session_duration, SessionRepository, UserInfoProvider, TokenManager,
  authenticate, new_expiry, execute_refresh, issue, validate, revoke,
}

module _ {S : Type 0} (view : S → String → Option SessionRecord) where
  -- Sessions may have gone, and none has come or changed.
  pub record OnlyDrops (s s' : S) : Type 0 where
    pub each : (h : String) → (view s' h ≡ view s h) ⊎ (view s' h ≡ none)

  -- The same, but for one record that was written under its hash.
  pub record OnlyWrites (r : SessionRecord) (s s' : S) : Type 0 where
    pub each : (h : String) → (view s' h ≡ view s h) ⊎ ((view s' h ≡ none) ⊎ (view s' h ≡ some r))

  -- What the service relies on: a repository writes the records that it is given and no others.
  pub record IsSessionStore (repo : SessionRepository S) (users : UserInfoProvider S)
      (tm : TokenManager S) : Type 0 where
    pub creates : (r : SessionRecord) (s : S) → OnlyWrites r s (repo.create r s).1
    pub gets : (h : String) (s : S) → OnlyDrops s (repo.get h s).1
    pub updates : (r : SessionRecord) (s : S) → OnlyWrites r s (repo.update r s).1
    pub deletes : (r : SessionRecord) (s : S) → OnlyDrops s (repo.delete r s).1
    pub looks : (id : ℤ) (s : S) → OnlyDrops s (users.exists id s).1
    pub draws : (n : ℕ) (s : S) → OnlyDrops s (tm.generate n s).1

  -- No session expires later than seven days after its creation.
  pub record IsCapped (s : S) : Type 0 where
    pub each :
        (h : String) (r : SessionRecord)
        → view s h ≡ some r
        → r.expires_at ≤ r.created_at + max_session_life

  OnlyDrops-IsCapped : {s s' : S} → OnlyDrops s s' → IsCapped s → IsCapped s'
  OnlyDrops-IsCapped d c = record { each = λ h r e. ground (arith, d.each h, c.each h r) }

  OnlyWrites-IsCapped :
      {r : SessionRecord} {s s' : S}
      → r.expires_at ≤ r.created_at + max_session_life
      → OnlyWrites r s s'
      → IsCapped s
      → IsCapped s'
  OnlyWrites-IsCapped fits d c = record { each = λ h r e. ground (arith, d.each h, c.each h r) }

  module _ (repo : SessionRepository S) (users : UserInfoProvider S) (tm : TokenManager S)
      (store : IsSessionStore repo users tm) where
    get-IsCapped : (h : String) → Keeps IsCapped (repo.get h)
    get-IsCapped h = record { at = λ s c. OnlyDrops-IsCapped (store.gets h s) c }

    create-IsCapped :
        (r : SessionRecord)
        → r.expires_at ≤ r.created_at + max_session_life
        → Keeps IsCapped (repo.create r)
    create-IsCapped r fits = record { at = λ s c. OnlyWrites-IsCapped fits (store.creates r s) c }

    update-IsCapped :
        (r : SessionRecord)
        → r.expires_at ≤ r.created_at + max_session_life
        → Keeps IsCapped (repo.update r)
    update-IsCapped r fits = record { at = λ s c. OnlyWrites-IsCapped fits (store.updates r s) c }

    delete-IsCapped : (r : SessionRecord) → Keeps IsCapped (repo.delete r)
    delete-IsCapped r = record { at = λ s c. OnlyDrops-IsCapped (store.deletes r s) c }

    exists-IsCapped : (id : ℤ) → Keeps IsCapped (users.exists id)
    exists-IsCapped id = record { at = λ s c. OnlyDrops-IsCapped (store.looks id s) c }

    generate-IsCapped : (n : ℕ) → Keeps IsCapped (tm.generate n)
    generate-IsCapped n = record { at = λ s c. OnlyDrops-IsCapped (store.draws n s) c }

    new_expiry-le : (now created : Time) → new_expiry now created ≤ created + max_session_life
    unfolding new_expiry
    new_expiry-le now created = ground arith

    authenticate-IsCapped :
        (now : Time) (token : String) → Keeps IsCapped (authenticate repo users tm now token)
    unfolding authenticate
    authenticate-IsCapped now token = search (keeps_rules, get-IsCapped) depth 8

    execute_refresh-IsCapped :
        (now : Time) (token : String) → Keeps IsCapped (execute_refresh repo users tm now token)
    unfolding execute_refresh
    execute_refresh-IsCapped now token =
        search (keeps_rules, get-IsCapped, update-IsCapped, new_expiry-le) depth 8

    issue-IsCapped :
        (now now' : Time) (id : ℤ) → now ≤ now' → Keeps IsCapped (issue repo users tm now now' id)
    unfolding issue
    issue-IsCapped now now' id later =
        let fits : now + session_duration ≤ now' + max_session_life = omega arith in
        search (keeps_rules, generate-IsCapped, create-IsCapped, fits) depth 8

    validate-IsCapped :
        (now : Time) (token : String) → Keeps IsCapped (validate repo users tm now token)
    unfolding validate
    validate-IsCapped now token =
        search (keeps_rules, authenticate-IsCapped, exists-IsCapped) depth 8

    revoke-IsCapped :
        (now : Time) (id : ℤ) (token : String) → Keeps IsCapped (revoke repo users tm now id token)
    unfolding revoke
    revoke-IsCapped now id token =
        search (keeps_rules, authenticate-IsCapped, delete-IsCapped) depth 8

    -- The calls of the service, and sessions that the store drops by itself.
    pub data Step (s : S) : S → Type 0 where
      issues :
          (now now' : Time) (id : ℤ) → now ≤ now' → Step s (issue repo users tm now now' id s).1
      refreshes :
          (now : Time) (token : String) → Step s (execute_refresh repo users tm now token s).1
      validates : (now : Time) (token : String) → Step s (validate repo users tm now token s).1
      revokes :
          (now : Time) (id : ℤ) (token : String) → Step s (revoke repo users tm now id token s).1
      lapses : {s' : S} → OnlyDrops s s' → Step s s'

    pub data Reach (s : S) : S → Type 0 where
      here : Reach s s
      next : {t u : S} → Reach s t → Step t u → Reach s u

    Step-IsCapped : {s s' : S} → Step s s' → IsCapped s → IsCapped s'
    Step-IsCapped {s} (issues now now' id later) c = (issue-IsCapped now now' id later).at s c
    Step-IsCapped {s} (refreshes now token) c = (execute_refresh-IsCapped now token).at s c
    Step-IsCapped {s} (validates now token) c = (validate-IsCapped now token).at s c
    Step-IsCapped {s} (revokes now id token) c = (revoke-IsCapped now id token).at s c
    Step-IsCapped (lapses d) c = OnlyDrops-IsCapped d c

    -- Whatever sequence of logins, refreshes, validations, logouts and expirations leads from a
    -- state without sessions, no session in the repository expires later than seven days after its
    -- creation, for a repository that writes the records that it is given and no others.
    pub Reach-IsCapped :
        (s s' : S)
        → ((h : String) → view s h ≡ none)
        → Reach s s'
        → (h : String) (r : SessionRecord) → view s' h ≡ some r
        → r.expires_at ≤ r.created_at + max_session_life
    Reach-IsCapped s s' empty path h r = (reach path).each h r
      where
        reach : {t : S} → Reach s t → IsCapped t
        reach here = record { each = λ h r e. ground (arith, empty h) }
        reach (next p st) = Step-IsCapped st (reach p)
