-- ===== src/Repository/Session/Stores.antt =====
-- What the session service relies on holds of the repository, if it holds of the store.
use aita.Common.{ℕ, ℤ, String, ◌≡◌, refl, sym, ap, subst, ◌⊎◌, inl, inr, Option, none, some}
use aita.Exec.{Result, ok, err, panic, ◌>>=◌}
use aita.Models.{Session}
use aita.Dto.Session.{SessionRecord, to_model, to_session_record}
use aita.Service.Session.{UserInfoProvider, TokenManager}
use aita.Service.Session.Lifetime.{OnlyDrops, OnlyWrites, IsSessionStore}
use aita.Repository.Session.{
  SessionStore, create, created, get, fetched, update, delete, as_interface,
}

module _ {S : Type 0} (view : S → String → Option Session) where
  -- What a store promises: it keeps or drops what it holds, and writes what it is given.
  pub record Promises (store : SessionStore S) : Type 0 where
    pub creates :
        (m : Option Session) (s : S) (h : String)
        → (view (store.create m s).1 h ≡ view s h)
          ⊎ ((view (store.create m s).1 h ≡ none) ⊎ (view (store.create m s).1 h ≡ m))
    pub gets :
        (k : String) (s : S) (h : String)
        → (view (store.get k s).1 h ≡ view s h) ⊎ (view (store.get k s).1 h ≡ none)
    pub updates :
        (m : Option Session) (s : S) (h : String)
        → (view (store.update m s).1 h ≡ view s h)
          ⊎ ((view (store.update m s).1 h ≡ none) ⊎ (view (store.update m s).1 h ≡ m))
    pub deletes :
        (m : Option Session) (s : S) (h : String)
        → (view (store.delete m s).1 h ≡ view s h) ⊎ (view (store.delete m s).1 h ≡ none)

  -- The sessions as the service knows them.
  abbrev pub records : S → String → Option SessionRecord
  records s h = to_session_record (view s h)

  dropped :
      (s s' : S)
      → ((h : String) → (view s' h ≡ view s h) ⊎ (view s' h ≡ none))
      → OnlyDrops records s s'
  unfolding to_session_record
  dropped s s' d = record {
    each = λ h. elim (d h) [
      | inl kept ↦ inl (ap to_session_record kept)
      | inr gone ↦ inr (ap to_session_record gone)
    ];
  }

  written :
      (r : SessionRecord) (s s' : S)
      → ((h : String)
          → (view s' h ≡ view s h) ⊎ ((view s' h ≡ none) ⊎ (view s' h ≡ to_model (some r))))
      → OnlyWrites records r s s'
  unfolding to_session_record to_model
  written r s s' d = record {
    each = λ h. elim (d h) [
      | inl kept ↦ inl (ap to_session_record kept)
      | inr (inl gone) ↦ inr (inl (ap to_session_record gone))
      | inr (inr new) ↦ inr (inr (ap to_session_record new))
    ];
  }

  module _ (store : SessionStore S) where
    create_state :
        (r : SessionRecord) (s : S) → (create store r s).1 ≡ (store.create (to_model (some r)) s).1
    unfolding create
    create_state r s =
        by_outcome (store.create (to_model (some r)) s).0 (store.create (to_model (some r)) s).1
      where
        by_outcome :
            (o : Result (Option Session)) (t : S)
            → (((λ (u : S). (o, t)) >>= created store) s).1 ≡ t
        by_outcome (ok none) t = refl
        by_outcome (ok (some m)) t = refl
        by_outcome (err e) t = refl
        by_outcome panic t = refl

    get_state : (k : String) (s : S) → (get store k s).1 ≡ (store.get k s).1
    unfolding get
    get_state k s = by_outcome (store.get k s).0 (store.get k s).1
      where
        by_outcome :
            (o : Result (Option Session)) (t : S)
            → (((λ (u : S). (o, t)) >>= fetched store) s).1 ≡ t
        by_outcome (ok none) t = refl
        by_outcome (ok (some m)) t = refl
        by_outcome (err e) t = refl
        by_outcome panic t = refl

    -- What the session service relies on holds of the session repository, for the records that the
    -- stored sessions stand for: if the store writes the sessions that it is given and otherwise
    -- keeps or drops what it holds, and looking up users and drawing tokens write no session.
    pub as_interface-IsSessionStore :
        (users : UserInfoProvider S) (tm : TokenManager S)
        → Promises store
        → ((id : ℤ) (s : S) → OnlyDrops records s (users.exists id s).1)
        → ((n : ℕ) (s : S) → OnlyDrops records s (tm.generate n s).1)
        → IsSessionStore records (as_interface store) users tm
    unfolding as_interface update delete
    as_interface-IsSessionStore users tm p looks draws = record {
      creates = λ r s.
          subst (OnlyWrites records r s) (sym (create_state r s))
            (written r s (store.create (to_model (some r)) s).1 (p.creates (to_model (some r)) s));
      gets = λ k s.
          subst (OnlyDrops records s) (sym (get_state k s))
            (dropped s (store.get k s).1 (p.gets k s));
      updates = λ r s.
          written r s (store.update (to_model (some r)) s).1 (p.updates (to_model (some r)) s);
      deletes =
          λ r s. dropped s (store.delete (to_model (some r)) s).1 (p.deletes (to_model (some r)) s);
      looks = looks;
      draws = draws;
    }
