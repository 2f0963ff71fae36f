-- ===== src/Tests/Stores.antt =====
-- The session repository, with a map from hashes to sessions for the store.
use aita.Common.{
  String, str_eq, ◌≡◌, refl, ◌⊎◌, inl, inr, true, Bool-cases, Option, none, some, if◌then◌else◌,
}
use aita.Exec.{ok}
use aita.Models.{Session}
use aita.Service.Session.{UserInfoProvider, TokenManager}
use aita.Service.Session.Lifetime.{IsSessionStore}
use aita.Repository.Session.{SessionStore, as_interface}
use aita.Repository.Session.Stores.{Promises, records, as_interface-IsSessionStore}

abbrev Sessions : Type 0
Sessions = String → Option Session

abbrev write : Option Session → Sessions → Sessions
write none s = s
write (some m) s = λ h. if str_eq h m.token_hash then some m else s h

abbrev drop : Option Session → Sessions → Sessions
drop none s = s
drop (some m) s = λ h. if str_eq h m.token_hash then none else s h

abbrev store : SessionStore Sessions
store = record {
  create = λ m s. (ok m, write m s);
  get = λ h s. (ok (s h), s);
  update = λ m s. (ok tt, write m s);
  delete = λ m s. (ok tt, drop m s);
}

writes :
    (m : Option Session) (s : Sessions) (h : String)
    → (write m s h ≡ s h) ⊎ ((write m s h ≡ none) ⊎ (write m s h ≡ m))
writes none s h = inl refl
writes (some m) s h = elim (Bool-cases (str_eq h m.token_hash)) [
  | inl same ↦ rw same (inr (inr refl))
  | inr other ↦ rw other (inl refl)
]

drops : (m : Option Session) (s : Sessions) (h : String) → (drop m s h ≡ s h) ⊎ (drop m s h ≡ none)
drops none s h = inl refl
drops (some m) s h = elim (Bool-cases (str_eq h m.token_hash)) [
  | inl same ↦ rw same (inr refl)
  | inr other ↦ rw other (inl refl)
]

promises : Promises (λ s. s) store
promises = record { creates = writes; gets = λ k s h. inl refl; updates = writes; deletes = drops }

abbrev users : UserInfoProvider Sessions
users = record { exists = λ id s. (ok true, s) }

abbrev tm : TokenManager Sessions
tm = record { generate = λ n s. (ok "0123456789abcdef0123456789abcdef", s); hash = λ t. t }

as_interface-IsSessionStore_example :
    IsSessionStore (records (λ s. s)) (as_interface store) users tm
as_interface-IsSessionStore_example =
    as_interface-IsSessionStore (λ s. s) store users tm promises
      (λ id s. record { each = λ h. inl refl }) (λ n s. record { each = λ h. inl refl })
