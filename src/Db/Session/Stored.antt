-- ===== src/Db/Session/Stored.antt =====
-- What the session store writes: internal/db/redis_session_store.go, with Redis as the text under
-- each key.
use aita.Common.{
  ℕ, String, ◌≡◌, refl, sym, ◌∙◌, ap, ◌⊎◌, inl, inr, Option, none, some, List, [], ◌∷◌, ◌-◌, leb,
}
use aita.Errcode.{Sentinel, Error, session_expired, session_not_found, token_conflict}
use aita.Exec.{Result, ok, err, panic}
use aita.Exec.Keeps.{Keeps, keeps_rules, Keeps-if, Keeps-bind, Keeps-fail, Keeps-pure}
use aita.Models.{Time, Session}
use aita.Pkg.Redis.{
  Key, session_data, Command, get, Reply, Client, error_of, as_text, first_reply, piped, Writes,
  OnlySets, IsTextStore,
}
use aita.Repository.Session.Stores.{Promises}
use aita.Pkg.Json.{Json}
use aita.Db.Session.{
  set_outcome, checked, create_commands, create_marshalled, create, fetched, get_session,
  update_commands, update_marshalled, update, delete_commands, deleted, delete, as_store,
}

-- What the store relies on: a session that was written can be read.
pub record IsReadable (json : Json Session) : Type 0 where
  pub unmarshal-marshal :
      (m : Session) (v : String) → json.marshal m ≡ ok v → json.unmarshal v ≡ ok m

abbrev value_of : Result Session → Option Session
value_of (ok m) = some m
value_of (err e) = none
value_of panic = none

abbrev decoded : Json Session → Option String → Option Session
decoded json none = none
decoded json (some v) = value_of (json.unmarshal v)

module _ {S : Type 0} (held : S → Key → Option String) (json : Json Session) where
  -- The sessions that Redis holds, by their hashes.
  abbrev pub sessions : S → String → Option Session
  sessions s h = decoded json (held s (session_data h))

  -- From `s` on, sessions may have gone, and none but `new` has come.
  record Close (s : S) (new : Option Session) (t : S) : Type 0 where
    each :
        (h : String)
        → (sessions t h ≡ sessions s h) ⊎ ((sessions t h ≡ none) ⊎ (sessions t h ≡ new))

  Close-OnlySets :
      (s : S) (new : Option Session) (cs : List Command) (t u : S)
      → ((h v : String) → Writes (session_data h) v cs → decoded json (some v) ≡ new)
      → OnlySets held cs t u
      → Close s new t
      → Close s new u
  Close-OnlySets s new cs t u fits sets c = record {
    each = λ h. elim (sets.each (session_data h)) [
      | inl kept ↦ elim (c.each h) [
        | inl same ↦ inl (ap (decoded json) kept ∙ same)
        | inr (inl gone) ↦ inr (inl (ap (decoded json) kept ∙ gone))
        | inr (inr came) ↦ inr (inr (ap (decoded json) kept ∙ came))
      ]
      | inr (inl gone) ↦ inr (inl (ap (decoded json) gone))
      | inr (inr (v, wrote, now_held)) ↦ inr (inr (ap (decoded json) now_held ∙ fits h v wrote))
    ];
  }

  module _ (client : Client S) (law : IsTextStore held client) (readable : IsReadable json)
      (s : S) where
    piped-Close :
        (new : Option Session) (cs : List Command)
        → ((h v : String) → Writes (session_data h) v cs → decoded json (some v) ≡ new)
        → Keeps (Close s new) (piped client cs)
    piped-Close new cs fits = record {
      at = λ t c. Close-OnlySets s new cs t _ fits (law.pipes cs t) c;
    }

    set_outcome-Close :
        (new : Option Session) (absent : Sentinel) (e : Option Error)
        → Keeps (Close s new) (set_outcome json client absent e)
    set_outcome-Close new absent none = search keeps_rules depth 4
    set_outcome-Close new absent (some e) = search keeps_rules depth 4

    checked-Close :
        (new : Option Session) (absent : Sentinel) (executed : Option Error × List Reply)
        → Keeps (Close s new) (checked json client absent executed)
    checked-Close new absent (none, replies) =
        set_outcome-Close new absent (error_of (first_reply replies))
    checked-Close new absent (some e, replies) = search (keeps_rules, set_outcome-Close) depth 4

    readable-value :
        (m : Session) (bytes v : String)
        → json.marshal m ≡ ok bytes
        → bytes ≡ v
        → decoded json (some v) ≡ some m
    readable-value m bytes v e same = rw (sym same) (rw (readable.unmarshal-marshal m bytes e))

    create-Fits :
        (ttl : ℕ) (m : Session) (bytes h v : String)
        → json.marshal m ≡ ok bytes
        → Writes (session_data h) v (create_commands ttl m bytes)
        → decoded json (some v) ≡ some m
    create-Fits ttl m bytes h v e (inl w) = readable-value m bytes v e cc
    create-Fits ttl m bytes h v e (inr (inl w)) = cc
    create-Fits ttl m bytes h v e (inr (inr (inl w))) = cc
    create-Fits ttl m bytes h v e (inr (inr (inr w))) = elim w [ ]

    create-Close :
        (now : Time) (m : Session) (r : Result String)
        → json.marshal m ≡ r
        → Keeps (Close s (some m)) (create_marshalled json client now m r)
    create-Close now m (ok bytes) e =
        Keeps-if (leb m.expires_at now) _ _ (Keeps-fail session_expired) (
          Keeps-bind _ _
            (piped-Close (some m) (create_commands (m.expires_at - now) m bytes)
              (λ h v. create-Fits (m.expires_at - now) m bytes h v e))
            (λ executed.
              Keeps-bind _ _ (checked-Close (some m) token_conflict executed)
                (λ u. Keeps-pure (some m))))
    create-Close now m (err x) e = search keeps_rules depth 4
    create-Close now m panic e = record { at = λ t c. c }

    update-Fits :
        (ttl : ℕ) (m : Session) (bytes h v : String)
        → json.marshal m ≡ ok bytes
        → Writes (session_data h) v (update_commands ttl m bytes)
        → decoded json (some v) ≡ some m
    update-Fits ttl m bytes h v e (inl w) = readable-value m bytes v e cc
    update-Fits ttl m bytes h v e (inr (inl w)) = cc
    update-Fits ttl m bytes h v e (inr (inr (inl w))) = cc
    update-Fits ttl m bytes h v e (inr (inr (inr w))) = elim w [ ]

    update-Close :
        (now : Time) (m : Session) (r : Result String)
        → json.marshal m ≡ r
        → Keeps (Close s (some m)) (update_marshalled json client now m r)
    update-Close now m (ok bytes) e =
        Keeps-if (leb m.expires_at now) _ _ (Keeps-fail session_expired) (
          Keeps-bind _ _
            (piped-Close (some m) (update_commands (m.expires_at - now) m bytes)
              (λ h v. update-Fits (m.expires_at - now) m bytes h v e))
            (λ executed. checked-Close (some m) session_not_found executed))
    update-Close now m (err x) e = search keeps_rules depth 4
    update-Close now m panic e = record { at = λ t c. c }

    delete-Fits :
        (m : Session) (h v : String)
        → Writes (session_data h) v (delete_commands m)
        → decoded json (some v) ≡ none
    delete-Fits m h v (inl w) = cc
    delete-Fits m h v (inr (inl w)) = cc
    delete-Fits m h v (inr (inr w)) = elim w [ ]

    deleted-Close :
        (executed : Option Error × List Reply) → Keeps (Close s none) (deleted json client executed)
    deleted-Close (some e, replies) = search keeps_rules depth 4
    deleted-Close (none, replies) = search keeps_rules depth 6

    delete-Close : (m : Session) → Keeps (Close s none) (delete json client (some m))
    unfolding delete
    delete-Close m =
        Keeps-bind _ _ (piped-Close none (delete_commands m) (delete-Fits m)) deleted-Close

    fetched-Close :
        (now : Time) (r : Result String) → Keeps (Close s none) (fetched json client now r)
    fetched-Close now (ok bytes) = search keeps_rules depth 6
    fetched-Close now (err e) = search keeps_rules depth 6
    fetched-Close now panic = record { at = λ t c. c }

    start : (new : Option Session) → Close s new s
    start new = record { each = λ h. inl refl }

    get-Fits :
        (k : Key) (h v : String)
        → Writes (session_data h) v (get k ∷ [])
        → decoded json (some v) ≡ none
    get-Fits k h v (inl w) = cc
    get-Fits k h v (inr w) = elim w [ ]

    get-Close : (now : Time) (hash : String) → Close s none (get_session json client now hash s).1
    unfolding get_session
    get-Close now hash =
        (fetched-Close now (as_text (client.run (get (session_data hash)) s).0)).at
          (client.run (get (session_data hash)) s).1
          (Close-OnlySets s none (get (session_data hash) ∷ []) s _ (get-Fits (session_data hash))
            (law.runs (get (session_data hash)) s) (start none))

    creates-Close : (now : Time) (m : Option Session) → Close s m (create json client now m s).1
    unfolding create
    creates-Close now none = start none
    creates-Close now (some m) = (create-Close now m (json.marshal m) refl).at s (start (some m))

    updates-Close : (now : Time) (m : Option Session) → Close s m (update json client now m s).1
    unfolding update
    updates-Close now none = start none
    updates-Close now (some m) = (update-Close now m (json.marshal m) refl).at s (start (some m))

    deletes-Close : (m : Option Session) → Close s none (delete json client m s).1
    unfolding delete
    deletes-Close none = start none
    deletes-Close (some m) = (delete-Close m).at s (start none)

  dropped :
      (s t : S) (h : String)
      → Close s none t
      → (sessions t h ≡ sessions s h) ⊎ (sessions t h ≡ none)
  dropped s t h c = elim (c.each h) [
    | inl same ↦ inl same
    | inr (inl gone) ↦ inr gone
    | inr (inr gone) ↦ inr gone
  ]

  -- The session store keeps the promises that the session repository stands on, for the sessions
  -- that Redis holds as JSON under their hashes, at any time: `Create` and `Update` write no
  -- session but the one that they are given, and nothing else comes into being; if no command of
  -- Redis but `SET` writes a text, and JSON that was written can be read.
  pub as_store-Promises :
      (client : Client S)
      → IsTextStore held client
      → IsReadable json
      → (now : Time) → Promises sessions (as_store json client now)
  unfolding as_store
  as_store-Promises client law readable now = record {
    creates = λ m s h. (creates-Close client law readable s now m).each h;
    gets = λ k s h. dropped s _ h (get-Close client law readable s now k);
    updates = λ m s h. (updates-Close client law readable s now m).each h;
    deletes = λ m s h. dropped s _ h (deletes-Close client law readable s m);
  }
