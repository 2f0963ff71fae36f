-- ===== src/Db/Session.antt =====
-- internal/db/redis_session_store.go. A method takes the time that its call of `time.Now` or
-- `time.Until` reads; the conversions of encoding/json are a parameter, `Json`.
pub mod Stored
pub mod Found
use aita.Common.{
  ℕ, ◌+◌, ◌-◌, ℤ, pos, int_eq, String, Bool, true, false, Option, none, some, List, [], ◌∷◌, ◌++◌,
  map, leb, ltb, if◌then◌else◌,
}
use aita.Errcode.{Sentinel, Error, session_expired, session_not_found, token_conflict}
use aita.Exec.{
  Result, ok, err, panic, Exec, ◌>>=◌, ◌>>◌, pure, raise, fail, crash, lift, wrap_err, wrap,
}
use aita.Errcode.{wrapped}
use aita.Models.{Time, Session}
use aita.Repository.Session.{SessionStore}
use aita.Pkg.Json.{Json}
use aita.Pkg.Redis.{
  Key, session_data, session_hash, Command, get, set_nx, set_xx, s_add, s_rem, s_members, expire,
  unlink, del, Reply, Client, is_redis_nil, error_of, as_text, as_number, as_texts, first_reply,
  ask, piped, exec_all,
}

-- 24 * time.Hour
abbrev pub day : ℕ
day = 86_400_000_000_000

abbrev pub create_commands : ℕ → Session → String → List Command
create_commands ttl session bytes =
    set_nx (session_data session.token_hash) bytes ttl
    ∷ s_add (session_hash session.user_id) session.token_hash
    ∷ expire (session_hash session.user_id) (ttl + day)
    ∷ []

abbrev pub update_commands : ℕ → Session → String → List Command
update_commands ttl session bytes =
    set_xx (session_data session.token_hash) bytes session.expires_at
    ∷ s_add (session_hash session.user_id) session.token_hash
    ∷ expire (session_hash session.user_id) (ttl + day)
    ∷ []

abbrev pub delete_commands : Session → List Command
delete_commands session =
    unlink (session_data session.token_hash)
    ∷ s_rem (session_hash session.user_id) session.token_hash
    ∷ []

module _ {S : Type 0} (json : Json Session) (client : Client S) where
  -- What the error of the command that sets means; `absent` is what `redis.Nil` is turned into.
  abbrev pub set_outcome : Sentinel → Option Error → Exec S Unit
  set_outcome absent none = pure tt
  set_outcome absent (some e) = if is_redis_nil e then fail absent else raise (wrapped e)

  -- The end of `Create` and of `Update`, with what `Exec` of the pipeline gave.
  abbrev pub checked : Sentinel → Option Error × List Reply → Exec S Unit
  checked absent (none, replies) = set_outcome absent (error_of (first_reply replies))
  checked absent (some e, replies) =
      if is_redis_nil e
      then set_outcome absent (error_of (first_reply replies))
      else raise (wrapped e)

  abbrev pub create_marshalled : Time → Session → Result String → Exec S (Option Session)
  create_marshalled now session panic = crash
  create_marshalled now session (err e) = raise (wrapped e)
  create_marshalled now session (ok bytes) =
      if leb session.expires_at now then fail session_expired else do
        executed ← piped client (create_commands (session.expires_at - now) session bytes)
        checked token_conflict executed
        pure (some session)

  -- Create
  unfoldable pub create : Time → Option Session → Exec S (Option Session)
  create now none = crash
  create now (some session) = create_marshalled now session (json.marshal session)

  abbrev pub fresh : Time → Session → Exec S (Option Session)
  fresh now session =
      if ltb session.expires_at now then fail session_expired else pure (some session)

  abbrev pub fetched : Time → Result String → Exec S (Option Session)
  fetched now panic = crash
  fetched now (err e) = if is_redis_nil e then fail session_not_found else raise (wrapped e)
  fetched now (ok bytes) = do session ← wrap_err (lift (json.unmarshal bytes)); fresh now session

  -- Get
  unfoldable pub get_session : Time → String → Exec S (Option Session)
  get_session now token_hash s =
      let (r, s') = client.run (get (session_data token_hash)) s in fetched now (as_text r) s'

  abbrev pub update_marshalled : Time → Session → Result String → Exec S Unit
  update_marshalled now session panic = crash
  update_marshalled now session (err e) = raise (wrapped e)
  update_marshalled now session (ok bytes) =
      if leb session.expires_at now then fail session_expired else do
        executed ← piped client (update_commands (session.expires_at - now) session bytes)
        checked session_not_found executed

  -- Update
  unfoldable pub update : Time → Option Session → Exec S Unit
  update now none = crash
  update now (some session) = update_marshalled now session (json.marshal session)

  abbrev pub deleted : Option Error × List Reply → Exec S Unit
  deleted (some e, replies) = raise (wrapped e)
  deleted (none, replies) = do
    count ← wrap_err (lift (as_number (first_reply replies)))
    if int_eq count (pos 0) then fail session_not_found else pure tt

  -- Delete
  unfoldable pub delete : Option Session → Exec S Unit
  delete none = crash
  delete (some session) = do executed ← piped client (delete_commands session); deleted executed

  abbrev drop_all : ℤ → List String → Exec S Unit
  drop_all user_id [] = pure tt
  drop_all user_id (h ∷ hashes) = wrap_err (
      exec_all client
        (map (λ hash. del (session_data hash)) (h ∷ hashes) ++ del (session_hash user_id) ∷ []))

  -- DeleteByUserID
  unfoldable pub delete_by_user_id : ℤ → Exec S Unit
  delete_by_user_id user_id = do
    hashes ← wrap_err (ask client as_texts (s_members (session_hash user_id)))
    drop_all user_id hashes

  -- The store as the interface of the repository, with the clock at `now`.
  unfoldable pub as_store : Time → SessionStore S
  as_store now = record {
    create = create now;
    get = get_session now;
    update = update now;
    delete = delete;
  }
