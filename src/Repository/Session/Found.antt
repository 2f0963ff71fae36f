-- ===== src/Repository/Session/Found.antt =====
-- A session that was created is found: internal/repository/session_repository.go over a store that
-- finds what it has created.
use aita.Common.{◌≡◌, refl, Option, none, some, ap, ◌∙◌, arith}
use aita.Exec.{ok, >>=-eq-ok}
use aita.Models.{Session}
use aita.Dto.Session.{SessionRecord, to_model, to_session_record}
use aita.Repository.Session.{SessionStore, created, create, get}

-- The store at the time of `Create`, and at that of `Get`.
module _ {S : Type 0} (store store' : SessionStore S) (sr : SessionRecord) where
  created-ok :
      (m : Option Session) (s s' : S) (r : SessionRecord)
      → created store m s ≡ (ok (some r), s')
      → (to_session_record m ≡ some r) × (s ≡ s')
  unfolding to_session_record
  created-ok none s s' r h = cc
  created-ok (some m) s s' r h = (ground arith, ground arith)

  get-found :
      (s : S)
      → (store'.get sr.token_hash s).0 ≡ ok (to_model (some sr))
      → get store' sr.token_hash s ≡ (ok (some sr), (get store' sr.token_hash s).1)
  unfolding get to_model to_session_record
  get-found s found = rw found refl

  -- If the store returns the session and finds it, so does the repository.
  pub create-get :
      (s s' : S) (r : SessionRecord)
      → ((m : Option Session)
          → store.create (to_model (some sr)) s ≡ (ok m, s')
          → (m ≡ to_model (some sr)) × ((store'.get sr.token_hash s').0 ≡ ok (to_model (some sr))))
      → create store sr s ≡ (ok (some r), s')
      → (r ≡ sr) × (get store' sr.token_hash s' ≡ (ok (some sr), (get store' sr.token_hash s').1))
  unfolding create to_model to_session_record
  create-get s s' r finds h =
      let (m, t, made, rest) = >>=-eq-ok (store.create (to_model (some sr))) (created store) s h in
      let (same, here) = created-ok m t s' r rest in
      let (returned, found) = finds m (made ∙ ap (λ u. (ok m, u)) here) in
      (ground (arith, same, returned), get-found s' found)
