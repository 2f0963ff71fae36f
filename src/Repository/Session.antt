-- ===== src/Repository/Session.antt =====
-- internal/repository/session_repository.go
pub mod Calm
pub mod Stores
pub mod Found
use aita.Common.{Option, none, some, String}
use aita.Errcode.{internal, session_not_found}
use aita.Exec.{Exec, ◌>>=◌, ◌>>◌, pure, fail}
use aita.Models.{Session}
use aita.Dto.Session.{SessionRecord, to_model, to_session_record}
use aita.Service.Session.{SessionRepository}

-- A session is handed over by a pointer. `DeleteByUserID` is of no use to the repository.
pub record SessionStore (S : Type 0) : Type 0 where
  pub create : Option Session → Exec S (Option Session)
  pub get : String → Exec S (Option Session)
  pub update : Option Session → Exec S Unit
  pub delete : Option Session → Exec S Unit

module _ {S : Type 0} (store : SessionStore S) where
  abbrev pub created : Option Session → Exec S (Option SessionRecord)
  created none = fail internal
  created (some session) = pure (to_session_record (some session))

  -- Create
  unfoldable pub create : SessionRecord → Exec S (Option SessionRecord)
  create sr = do new_session ← store.create (to_model (some sr)); created new_session

  abbrev pub fetched : Option Session → Exec S (Option SessionRecord)
  fetched none = fail session_not_found
  fetched (some session) = pure (to_session_record (some session))

  -- Get
  unfoldable pub get : String → Exec S (Option SessionRecord)
  get token_hash = do session ← store.get token_hash; fetched session

  -- Update
  unfoldable pub update : SessionRecord → Exec S Unit
  update sr = store.update (to_model (some sr))

  -- Delete
  unfoldable pub delete : SessionRecord → Exec S Unit
  delete sr = store.delete (to_model (some sr))

  -- The repository as the interface of the service.
  unfoldable pub as_interface : SessionRepository S
  as_interface = record { create = create; get = get; update = update; delete = delete }
