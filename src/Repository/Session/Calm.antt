-- ===== src/Repository/Session/Calm.antt =====
-- internal/repository/session_repository.go ends without a panic over a store that does, and a record
-- that it returns is not nil.
use aita.Common.{String, Option, none, some}
use aita.Errcode.{internal, session_not_found}
use aita.Exec.Calm.{Any, IsSome, Calm, Calm-pure, Calm-fail, Calm-bind}
use aita.Models.{Session}
use aita.Dto.Session.{SessionRecord, to_model, to_session_record}
use aita.Repository.Session.{SessionStore, create, created, get, fetched, delete}

pub record IsCalmSessionStore {S : Type 0} (store : SessionStore S) : Type 0 where
  pub creates : (m : Session) → Calm Any (store.create (some m))
  pub finds : (hash : String) → Calm Any (store.get hash)
  pub deletes : (m : Session) → Calm Any (store.delete (some m))

module _ {S : Type 0} (store : SessionStore S) (calm : IsCalmSessionStore store) where
  pub create-Calm : (r : SessionRecord) → Calm IsSome (create store r)
  unfolding create to_model to_session_record
  create-Calm r = Calm-bind _ _ (calm.creates _) by_row
    where
      by_row : (o : Option Session) → Calm IsSome (created store o)
      by_row none = Calm-fail internal
      by_row (some m) = Calm-pure _ tt

  pub get-Calm : (hash : String) → Calm IsSome (get store hash)
  unfolding get to_session_record
  get-Calm hash = Calm-bind _ _ (calm.finds hash) by_row
    where
      by_row : (o : Option Session) → Calm IsSome (fetched store o)
      by_row none = Calm-fail session_not_found
      by_row (some m) = Calm-pure _ tt

  pub delete-Calm : (r : SessionRecord) → Calm Any (delete store r)
  unfolding delete to_model
  delete-Calm r = calm.deletes _
