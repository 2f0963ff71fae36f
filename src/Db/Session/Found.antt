-- ===== src/Db/Session/Found.antt =====
-- A session that was created is found: internal/db/redis_session_store.go.
use aita.Common.{
  ℕ, ◌≤◌, ◌-◌, ◌+◌, ℤ, String, leb, le→ltb_false, ◌≡◌, ◌≢◌, refl, subst, ap, ◌∙◌, Bool, true, false,
  Option, none, some, List, [], ◌∷◌, if◌then◌else◌, arith,
}
use aita.Errcode.{Sentinel, Error, wrapped, session_expired, token_conflict}
use aita.Exec.{Result, ok, err, panic, ◌>>=◌, ◌>>◌, >>=-eq-ok, pure, fail, raise}
use aita.Models.{Time, Session}
use aita.Pkg.Json.{Json}
use aita.Pkg.Redis.{
  Key, session_data, get, session_hash, set_nx, s_add, expire, Reply, text, Client, is_redis_nil,
  error_of, first_reply, piped,
}
use aita.Db.Session.{
  day, create_commands, create_marshalled, create, set_outcome, checked, get_session,
}
use aita.Db.Session.Stored.{IsReadable}

module _ {S : Type 0} (held : S → Key → Option String) where
  -- What the store relies on: `SET` with `NX` at the head of the pipeline of `Create`, where its
  -- reply is no error, has written its text, and `GET` tells a text that is held.
  pub record IsWriting (client : Client S) : Type 0 where
    pub sets :
        (h v x : String) (user_id : ℤ) (ttl ttl' : ℕ) (s : S)
        → let cs =
            set_nx (session_data h) v ttl
            ∷ s_add (session_hash user_id) x
            ∷ expire (session_hash user_id) ttl'
            ∷ [] in
          error_of (first_reply (client.pipeline cs s).0.1) ≡ none
          → held (client.pipeline cs s).1 (session_data h) ≡ some v
    pub tells :
        (k : Key) (v : String) (s : S) → held s k ≡ some v → (client.run (get k) s).0 ≡ text v

  module _ (json : Json Session) (client : Client S) (law : IsWriting client)
      (readable : IsReadable json) where
    refused-ne-ok :
        (b : Bool) (c : Sentinel) (e : Error) (s s' : S) (u : Unit {0})
        → (if b then fail c else raise e) s ≢ (ok u, s')
    refused-ne-ok true c e s s' u h = cc
    refused-ne-ok false c e s s' u h = cc

    set_outcome-ok :
        (e : Option Error) (s s' : S) (u : Unit {0})
        → set_outcome json client token_conflict e s ≡ (ok u, s')
        → (e ≡ none) × (s ≡ s')
    set_outcome-ok none s s' u h = (refl, ap (λ p. p.1) h)
    set_outcome-ok (some e) s s' u h =
        absurd (refused-ne-ok (is_redis_nil e) token_conflict (wrapped e) s s' u h)

    checked-ok :
        (executed : Option Error × List Reply) (s s' : S) (u : Unit {0})
        → checked json client token_conflict executed s ≡ (ok u, s')
        → (error_of (first_reply executed.1) ≡ none) × (s ≡ s')
    checked-ok (none, replies) s s' u h = set_outcome-ok (error_of (first_reply replies)) s s' u h
    checked-ok (some e, replies) s s' u h = by_nil (is_redis_nil e) h
      where
        by_nil :
            (b : Bool)
            → (if b
                  then set_outcome json client token_conflict (error_of (first_reply replies))
                  else raise (wrapped e))
                s
              ≡ (ok u, s')
            → (error_of (first_reply replies) ≡ none) × (s ≡ s')
        by_nil true k = set_outcome-ok (error_of (first_reply replies)) s s' u k
        by_nil false k = cc

    ok_inj : {a b : Option Error × List Reply} → ok a ≡ ok b → a ≡ b
    ok_inj {a} h = ap value_or h
      where
        value_or : Result (Option Error × List Reply) → Option Error × List Reply
        value_or (ok x) = x
        value_or _ = a

    sent-held :
        (ttl : ℕ) (m : Session) (bytes : String) (s s' : S) (r : Option Session)
        → (do
          executed ← piped client (create_commands ttl m bytes)
          checked json client token_conflict executed
          pure (some m))
            s
          ≡ (ok r, s')
        → held s' (session_data m.token_hash) ≡ some bytes
    sent-held ttl m bytes s s' r h =
        let (executed, t, sent, rest) =
          >>=-eq-ok (piped client (create_commands ttl m bytes))
            (λ x. checked json client token_conflict x >> pure (some m)) s h in
        let (u, t', fine, last) =
          >>=-eq-ok (checked json client token_conflict executed) (λ x. pure (some m)) t rest in
        let (unrefused, same) = checked-ok executed t t' u fine in
        subst (λ x. held x (session_data m.token_hash) ≡ some bytes)
          (ap (λ p. p.1) sent ∙ (same ∙ ap (λ p. p.1) last))
          (law.sets m.token_hash bytes m.token_hash m.user_id ttl (ttl + day) s
            (ap (λ x. error_of (first_reply x.1)) (ok_inj (ap (λ p. p.0) sent)) ∙ unrefused))

    create-held :
        (now : Time) (m : Session) (o : Result String) (s s' : S) (r : Option Session)
        → json.marshal m ≡ o
        → create_marshalled json client now m o s ≡ (ok r, s')
        → (bytes : String) × (o ≡ ok bytes) × (held s' (session_data m.token_hash) ≡ some bytes)
    create-held now m (ok bytes) s s' r e h = (bytes, refl, by_expiry (leb m.expires_at now) h)
      where
        by_expiry :
            (b : Bool)
            → (if b then fail session_expired else do
              executed ← piped client (create_commands (m.expires_at - now) m bytes)
              checked json client token_conflict executed
              pure (some m))
                s
              ≡ (ok r, s')
            → held s' (session_data m.token_hash) ≡ some bytes
        by_expiry true k = cc
        by_expiry false k = sent-held (m.expires_at - now) m bytes s s' r k
    create-held now m (err x) s s' r e h = cc
    create-held now m panic s s' r e h = cc

    marshalled-returns :
        (now : Time) (m : Session) (o : Result String) (s s' : S) (r : Option Session)
        → create_marshalled json client now m o s ≡ (ok r, s')
        → r ≡ some m
    marshalled-returns now m (err x) s s' r h = cc
    marshalled-returns now m panic s s' r h = cc
    marshalled-returns now m (ok bytes) s s' r h = by_expiry (leb m.expires_at now) h
      where
        by_expiry :
            (b : Bool)
            → (if b then fail session_expired else do
              executed ← piped client (create_commands (m.expires_at - now) m bytes)
              checked json client token_conflict executed
              pure (some m))
                s
              ≡ (ok r, s')
            → r ≡ some m
        by_expiry true k = cc
        by_expiry false k =
            let (executed, t, sent, rest) =
              >>=-eq-ok (piped client (create_commands (m.expires_at - now) m bytes))
                (λ x. checked json client token_conflict x >> pure (some m)) s k in
            let (u, t', fine, last) =
              >>=-eq-ok (checked json client token_conflict executed) (λ x. pure (some m)) t rest in
            ground (arith, last)

    -- `Create` answers with the session that it was given.
    pub create-returns :
        (now : Time) (m : Session) (s s' : S) (r : Option Session)
        → create json client now (some m) s ≡ (ok r, s')
        → r ≡ some m
    unfolding create
    create-returns now m s s' r h = marshalled-returns now m (json.marshal m) s s' r h

    -- A session that `Create` accepted is what `Get` finds under its hash, until its expiry: if the
    -- `SET` of the pipeline of `Create` has written its text where its reply is no error, `GET`
    -- tells a text that is held, and JSON that was written can be read.
    pub create-get_session :
        (now now' : Time) (m : Session) (r : Option Session) (s s' : S)
        → create json client now (some m) s ≡ (ok r, s')
        → now' ≤ m.expires_at
        → (get_session json client now' m.token_hash s').0 ≡ ok (some m)
    unfolding create get_session
    create-get_session now now' m r s s' h alive =
        let (bytes, marshalled, there) = create-held now m (json.marshal m) s s' r refl h in
        rw
          (
            law.tells (session_data m.token_hash) bytes s' there,
            readable.unmarshal-marshal m bytes marshalled,
            le→ltb_false now' m.expires_at alive,
          )
          refl
