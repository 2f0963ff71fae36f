-- ===== src/Tests/Memory.antt =====
-- A Redis that keeps a text under each key; of a hash, a set or a sorted set it keeps only that it
-- is there.
use aita.Errcode.{Error}
use aita.Common.{
  ℕ, zero, suc, ℤ, pos, int_eq, int_eq→eq, nat_eq, String, str_eq, eq_iff, ◌≡◌, refl, sym, ap,
  subst, ◌∙◌, ◌⊎◌, inl, inr, Bool, true, false, ◌&&◌, Bool-cases, Option-cases, Option, none, some,
  List, [], ◌∷◌, All, In, arith, if◌then◌else◌,
}
use aita.Pkg.Redis.{
  Key, tweet_content, user_data, user_count, following, follower, timeline, session_data,
  session_hash, Command, get, set, set_nx, set_xx, del, unlink, exists, h_set, h_incr_by, s_add,
  z_add, Reply, done, number, Client, Creates, IsGet, AllTell, Tells, IsAnswering, IsRefusing,
  redis_nil,
}
use aita.Cache.Follow.Whole.{IsPresence}
use aita.Tests.Entries.{told, first_error}

abbrev pub Memory : Type 0
Memory = Key → Option String

abbrev code : Key → ℕ × ℤ × String
code (tweet_content id) = (0, id, "")
code (user_data id) = (1, id, "")
code (user_count id) = (2, id, "")
code (following id) = (3, id, "")
code (follower id) = (4, id, "")
code (timeline id) = (5, id, "")
code (session_data h) = (6, pos 0, h)
code (session_hash id) = (7, id, "")

abbrev decode : ℕ × ℤ × String → Key
decode (zero, id, h) = tweet_content id
decode (suc zero, id, h) = user_data id
decode (suc (suc zero), id, h) = user_count id
decode (suc (suc (suc zero)), id, h) = following id
decode (suc (suc (suc (suc zero))), id, h) = follower id
decode (suc (suc (suc (suc (suc zero)))), id, h) = timeline id
decode (suc (suc (suc (suc (suc (suc zero))))), id, h) = session_data h
decode (_, id, h) = session_hash id

decode-code : (k : Key) → decode (code k) ≡ k
decode-code (tweet_content id) = refl
decode-code (user_data id) = refl
decode-code (user_count id) = refl
decode-code (following id) = refl
decode-code (follower id) = refl
decode-code (timeline id) = refl
decode-code (session_data h) = refl
decode-code (session_hash id) = refl

abbrev code_eq : ℕ × ℤ × String → ℕ × ℤ × String → Bool
code_eq (a, x, s) (b, y, t) = nat_eq a b && (int_eq x y && str_eq s t)

code_eq→eq : (a b : ℕ × ℤ × String) → code_eq a b ≡ true → a ≡ b
code_eq→eq (a, x, s) (b, y, t) h = ground (arith, h, int_eq→eq x y, eq_iff s t)

abbrev key_eq : Key → Key → Bool
key_eq j k = code_eq (code j) (code k)

key_eq→eq : (j k : Key) → key_eq j k ≡ true → j ≡ k
key_eq→eq j k h = sym (decode-code j) ∙ (ap decode (code_eq→eq (code j) (code k) h) ∙ decode-code k)

abbrev put : Key → Option String → Memory → Memory
put j v s = λ k. if key_eq j k then v else s k

abbrev is_there : Option String → Bool
is_there none = false
is_there (some v) = true

-- Whether Redis has the key.
abbrev pub present : Memory → Key → Bool
present s k = is_there (s k)

abbrev step : Command → Memory → Reply × Memory
step (get k) s = (told (s k), s)
step (set k v ttl) s = (done, put k (some v) s)
step (set_nx k v ttl) s = (done, if present s k then s else put k (some v) s)
step (set_xx k v at) s = (done, if present s k then put k (some v) s else s)
step (del k) s = (done, put k none s)
step (unlink k) s = (done, put k none s)
step (exists (k ∷ [])) s = (number (if present s k then pos 1 else pos 0), s)
step (h_set k values) s = (done, put k (some "hash") s)
step (h_incr_by k field n) s = (done, put k (some "hash") s)
step (s_add k member) s = (done, put k (some "set") s)
step (z_add k members) s = (done, put k (some "sorted set") s)
step _ s = (done, s)

abbrev replies : List Command → Memory → List Reply
replies [] s = []
replies (c ∷ cs) s = (step c s).0 ∷ replies cs (step c s).1

abbrev steps : List Command → Memory → Memory
steps [] s = s
steps (c ∷ cs) s = steps cs (step c s).1

abbrev pub memory : Client Memory
memory = record {
  run = step;
  pipeline = λ cs s. ((first_error (replies cs s), replies cs s), steps cs s);
}

told-text : (k : Key) (s : Memory) → Tells (λ s k. s k) s (get k) (told (s k))
told-text k s = go (s k) refl
  where
    go : (o : Option String) → s k ≡ o → Tells (λ s k. s k) s (get k) (told o)
    go none h = tt
    go (some v) h = h

replies-AllTell :
    (cs : List Command) (s : Memory) → All IsGet cs → AllTell (λ s k. s k) s cs (replies cs s)
replies-AllTell [] s h = tt
replies-AllTell (get k ∷ cs) s (g, h) = (told-text k s, replies-AllTell cs s h)
replies-AllTell (_ ∷ cs) s (g, h) = absurd g

pub answering : IsAnswering (λ s k. s k) memory
answering = record {
  answers = λ cs s rs s' g h.
      subst (AllTell (λ s k. s k) s cs) (ap (λ p. p.0.1) h) (replies-AllTell cs s g);
}

is_there-one : (b : Bool) → number (if b then pos 1 else pos 0) ≡ number (pos 1) → b ≡ true
is_there-one true h = refl
is_there-one false h = ground arith

put_keeps :
    (j k : Key) (v : Option String) (s : Memory)
    → (j ≡ k) ⊎ (present s k ≡ false → present (put j v s) k ≡ false)
put_keeps j k v s = elim (Bool-cases (key_eq j k)) [
  | inl same ↦ inl (key_eq→eq j k same)
  | inr apart ↦ inr (λ h. rw apart h)
]

dropped : (j k : Key) (s : Memory) → present s k ≡ false → present (put j none s) k ≡ false
dropped j k s h = elim (Bool-cases (key_eq j k)) [
  | inl same ↦ rw same refl
  | inr apart ↦ rw apart h
]

stays :
    (c : Command) (k : Key) (s : Memory)
    → Creates k c ⊎ (present s k ≡ false → present (step c s).1 k ≡ false)
stays (set j v ttl) k s = put_keeps j k (some v) s
stays (set_nx j v ttl) k s = elim (Bool-cases (present s j)) [
  | inl there ↦ inr (λ h. rw there h)
  | inr free ↦ rw free (put_keeps j k (some v) s)
]
stays (set_xx j v at) k s = elim (Bool-cases (present s j)) [
  | inl there ↦ elim (put_keeps j k (some v) s) [
    | inl same ↦ inr (λ h. cc (h, there, ap (present s) same))
    | inr kept ↦ inr (rw there kept)
  ]
  | inr free ↦ inr (λ h. rw free h)
]
stays (del j) k s = inr (dropped j k s)
stays (unlink j) k s = inr (dropped j k s)
stays (h_set j values) k s = put_keeps j k _ s
stays (h_incr_by j field n) k s = put_keeps j k _ s
stays (s_add j member) k s = put_keeps j k _ s
stays (z_add j members) k s = put_keeps j k _ s
stays (exists []) k s = inr (λ h. h)
stays (exists (j ∷ [])) k s = inr (λ h. h)
stays (exists (j ∷ i ∷ ks)) k s = inr (λ h. h)
stays _ k s = inr (λ h. h)

pub presence : IsPresence present memory
presence = record { tells = λ k s h. is_there-one (present s k) h; stays = stays }

key_of : Key → Command → Key
key_of k (get j) = j
key_of k _ = k

missing :
    (cs : List Command) (k : Key) (s : Memory)
    → All IsGet cs
    → In (get k) cs
    → s k ≡ none
    → (e : Error) × (first_error (replies cs s) ≡ some e)
unfolding key_of
missing [] k s gets i h = elim i [ ]
missing (get j ∷ cs) k s (g, gets) (inl e) h = (redis_nil, rw (sym (ap (key_of k) e)) (rw h refl))
missing (get j ∷ cs) k s (g, gets) (inr i) h = elim (Option-cases (s j)) [
  | inl none_j ↦ (redis_nil, rw none_j refl)
  | inr (v, some_j) ↦ let (e, later) = missing cs k s gets i h in (e, rw some_j later)
]
missing (_ ∷ cs) k s (g, gets) i h = absurd g

pub refusing : IsRefusing (λ s k. s k) memory
refusing = record { fails = λ cs k s. missing cs k s }
