-- ===== src/Tests/Entries.antt =====
-- The session store over a client of Redis that keeps texts under the keys of sessions.
use aita.Common.{
  ℕ, ℤ, pos, int_eq, int_eq→eq, nat_eq, String, str_eq, str_eq_refl, eq_iff, ◌≡◌, refl, sym, ap,
  ◌∙◌, ◌⊎◌, inl, inr, Bool, true, false, ◌&&◌, Bool-cases, Option-cases, Option, none, some, List,
  [], ◌∷◌, arith, if◌then◌else◌,
}
use aita.Errcode.{Error, foreign}
use aita.Exec.{ok, err}
use aita.Models.{Session}
use aita.Pkg.Json.{Json}
use aita.Pkg.Redis.{
  Key, session_data, Command, get, set_nx, set_xx, del, unlink, Reply, redis_nil, nil_reply, done,
  text, error_of, Client, Writes, IsTextStore,
}
use aita.Db.Session.{create, get_session, as_store}
use aita.Db.Session.Found.{IsWriting, create-get_session}
use aita.Db.Session.Stored.{IsReadable, sessions, as_store-Promises}
use aita.Repository.Session.Stores.{Promises}

abbrev pub Texts : Type 0
Texts = String → Option String

abbrev pub held : Texts → Key → Option String
held s (session_data h) = s h
held s _ = none

abbrev pub put : Key → Option String → Texts → Texts
put (session_data h) v s = λ j. if str_eq h j then v else s j
put _ v s = s

abbrev pub told : Option String → Reply
told none = nil_reply
told (some v) = text v

abbrev step : Command → Texts → Reply × Texts
step (get k) s = (told (held s k), s)
step (set_nx k v ttl) s = elim (held s k) [
  | none ↦ (done, put k (some v) s)
  | some _ ↦ (nil_reply, s)
]
step (set_xx k v at) s = elim (held s k) [
  | none ↦ (nil_reply, s)
  | some _ ↦ (done, put k (some v) s)
]
step (del k) s = (done, put k none s)
step (unlink k) s = (done, put k none s)
step _ s = (done, s)

abbrev pub first_error : List Reply → Option Error
first_error [] = none
first_error (r ∷ rs) = elim (error_of r) [ none ↦ first_error rs | some e ↦ some e ]

abbrev replies : List Command → Texts → List Reply
replies [] s = []
replies (c ∷ cs) s = (step c s).0 ∷ replies cs (step c s).1

abbrev steps : List Command → Texts → Texts
steps [] s = s
steps (c ∷ cs) s = steps cs (step c s).1

abbrev pub client : Client Texts
client = record {
  run = step;
  pipeline = λ cs s. ((first_error (replies cs s), replies cs s), steps cs s);
}

-- What a key may have come to.
abbrev Came : List Command → Texts → Texts → Key → Type 0
Came cs s t k =
    (held t k ≡ held s k)
    ⊎ ((held t k ≡ none) ⊎ ((v : String) × Writes k v cs × (held t k ≡ some v)))

put-Came :
    (c : Command) (k : Key) (v : String) (s : Texts) (j : Key)
    → Writes k v (c ∷ [])
    → Came (c ∷ []) s (put k (some v) s) j
put-Came c (session_data h) v s (session_data j) w = elim (Bool-cases (str_eq h j)) [
  | inl same ↦ inr (inr (v, rw (sym ((eq_iff h j).0 same)) w, rw same refl))
  | inr apart ↦ inl (rw apart refl)
]
put-Came c _ v s _ w = inl refl

drop-Came : (c : Command) (k : Key) (s : Texts) (j : Key) → Came (c ∷ []) s (put k none s) j
drop-Came c (session_data h) s (session_data j) = elim (Bool-cases (str_eq h j)) [
  | inl same ↦ inr (inl (rw same refl))
  | inr apart ↦ inl (rw apart refl)
]
drop-Came c _ s _ = inl refl

step-Came : (c : Command) (s : Texts) (k : Key) → Came (c ∷ []) s (step c s).1 k
step-Came (set_nx j v ttl) s k = elim (Option-cases (held s j)) [
  | inl free ↦ rw (step, free) (put-Came (set_nx j v ttl) j v s k (inl refl))
  | inr (u, taken) ↦ rw (step, taken) (inl refl)
]
step-Came (set_xx j v at) s k = elim (Option-cases (held s j)) [
  | inl free ↦ rw (step, free) (inl refl)
  | inr (u, taken) ↦ rw (step, taken) (put-Came (set_xx j v at) j v s k (inl refl))
]
step-Came (del j) s k = drop-Came (del j) j s k
step-Came (unlink j) s k = drop-Came (unlink j) j s k
step-Came _ s k = inl refl

then-Came :
    (c : Command) (cs : List Command) (s t u : Texts) (k : Key)
    → Came (c ∷ []) s t k
    → Came cs t u k
    → Came (c ∷ cs) s u k
then-Came c cs s t u k a (inr (inl gone)) = inr (inl gone)
then-Came c cs s t u k a (inr (inr (v, w, now))) = inr (inr (v, inr w, now))
then-Came c cs s t u k (inl same) (inl kept) = inl (kept ∙ same)
then-Came c cs s t u k (inr (inl gone)) (inl kept) = inr (inl (kept ∙ gone))
then-Came c cs s t u k (inr (inr (v, inl w, now))) (inl kept) = inr (inr (v, inl w, kept ∙ now))
then-Came c cs s t u k (inr (inr (v, inr w, now))) (inl kept) = elim w [ ]

steps-Came : (cs : List Command) (s : Texts) (k : Key) → Came cs s (steps cs s) k
steps-Came [] s k = inl refl
steps-Came (c ∷ cs) s k =
    then-Came c cs s (step c s).1 (steps cs (step c s).1) k (step-Came c s k)
      (steps-Came cs (step c s).1 k)

told-eq : (o : Option String) (v : String) → told o ≡ text v → o ≡ some v
told-eq none v h = cc
told-eq (some u) v h = ground arith

gets : (k : Key) (s : Texts) (v : String) → (step (get k) s).0 ≡ text v → held s k ≡ some v
gets k s v e = told-eq (held s k) v e

keeps : IsTextStore held client
keeps = record {
  runs = λ c s. record { each = step-Came c s };
  pipes = λ cs s. record { each = steps-Came cs s };
  gets = gets;
}

abbrev session : Session
session = record {
  id = pos 1;
  user_id = pos 7;
  token_hash = "h";
  expires_at = 900;
  created_at = 100;
}

abbrev pub is_session : Session → Session → Bool
is_session the m =
    int_eq m.id the.id
    && int_eq m.user_id the.user_id
    && str_eq m.token_hash the.token_hash
    && nat_eq m.expires_at the.expires_at
    && nat_eq m.created_at the.created_at

-- JSON that writes one session only.
abbrev pub json_of : Session → Json Session
json_of the = record {
  marshal = λ m. if is_session the m then ok "session" else err (foreign 1);
  unmarshal = λ v. ok the;
}

abbrev json : Json Session
json = json_of session

is_session-eq : (the m : Session) → is_session the m ≡ true → m ≡ the
is_session-eq the m h = λ i. record {
  id = int_eq→eq m.id the.id (ground (arith, h)) i;
  user_id = int_eq→eq m.user_id the.user_id (ground (arith, h)) i;
  token_hash = (eq_iff m.token_hash the.token_hash).0 (ground (arith, h)) i;
  expires_at = (the_eq m.expires_at the.expires_at (ground (arith, h))) i;
  created_at = (the_eq m.created_at the.created_at (ground (arith, h))) i;
}
  where
    the_eq : (a b : ℕ) → nat_eq a b ≡ true → a ≡ b
    the_eq a b e = ground arith

pub readable : (the : Session) → IsReadable (json_of the)
readable the = record { unmarshal-marshal = λ m v. by_test m v (is_session the m) refl }
  where
    by_test :
        (m : Session) (v : String) (b : Bool)
        → is_session the m ≡ b
        → (if b then ok "session" else err (foreign 1)) ≡ ok v
        → ok the ≡ ok m
    by_test m v true e h = ap ok (sym (is_session-eq the m e))
    by_test m v false e h = cc

as_store-Promises_example : Promises (sessions held json) (as_store json client 200)
as_store-Promises_example = as_store-Promises held json client keeps (readable session) 200

sets :
    (h v x : String) (user_id : ℤ) (ttl ttl' : ℕ) (s : Texts)
    → error_of (step (set_nx (session_data h) v ttl) s).0 ≡ none
    → (step (set_nx (session_data h) v ttl) s).1 h ≡ some v
sets h v x user_id ttl ttl' s = by_held (s h) refl
  where
    by_held :
        (o : Option String)
        → s h ≡ o
        → error_of (step (set_nx (session_data h) v ttl) s).0 ≡ none
        → (step (set_nx (session_data h) v ttl) s).1 h ≡ some v
    by_held none e k = rw (step, e, str_eq_refl h)
    by_held (some u) e k = cc (k, nil_error e)
      where
        nil_error :
            s h ≡ some u → error_of (step (set_nx (session_data h) v ttl) s).0 ≡ some redis_nil
        nil_error p = rw (step, p)

told-text : (k : Key) (v : String) (s : Texts) → held s k ≡ some v → (step (get k) s).0 ≡ text v
told-text k v s h = rw (step, h)

pub writing : IsWriting held client
writing = record { sets = sets; tells = told-text }

abbrev created : Texts
created = put (session_data "h") (some "session") (λ h. none)

create-get_session_example : (get_session json client 300 "h" created).0 ≡ ok (some session)
create-get_session_example =
    create-get_session held json client writing (readable session) 200 300 session (some session)
      (λ h. none) created (unfold create in refl) (omega arith)
