-- ===== src/Cache/Batch/Sound.antt =====
-- What the reads of many entries answer: internal/cache/tweet_cache.go and user_cache.go, where what
-- Redis holds is true.
use aita.Common.{
  ℤ, int_eq, int_eq→eq, String, ◌≡◌, ◌≢◌, refl, ap, sym, subst, ◌∙◌, inl, inr, Bool-cases, Bool,
  true, false, Option, none, some, List, [], ◌∷◌, map, All, In, is_nonpos, arith, if◌then◌else◌,
}
use aita.Errcode.{Error}
use aita.Exec.{Result, ok, err, panic}
use aita.Pkg.Json.{Json}
use aita.Pkg.Redis.{
  Key, get, Reply, nil_reply, done, text, number, texts, fields, failed_with, redis_nil,
  is_redis_nil, Client, as_text, first_reply, rest_replies, Tells, AllTell, IsGet, IsAnswering,
  IsRefusing,
}
use aita.Cache.Batch.{asked, gathered, value_of, decoded, finished, get_commands, get_many}
use aita.Repository.Batch.Agree.{IsSound}

module _ {S A : Type 0} (held : S → Key → Option String) (json : Json A) (key_of : ℤ → Key)
    (id_of : A → ℤ) (truth : ℤ → Option A) where
  -- What Redis holds of the entries is what the table has.
  pub record IsFresh (s : S) : Type 0 where
    pub entry :
        (id : ℤ) (v : String) (t : A)
        → held s (key_of id) ≡ some v
        → json.unmarshal v ≡ ok t
        → truth id ≡ some t

  module _ (s : S) (fresh : IsFresh s) where
    value-truth :
        (id : ℤ) (v : String) (t : A) (r : Result A)
        → held s (key_of id) ≡ some v
        → json.unmarshal v ≡ r
        → value_of json r ≡ some t
        → truth id ≡ some t
    value-truth id v t (ok u) h e k = fresh.entry id v t h (ground (arith, e, k))
    value-truth id v t (err x) h e k = cc
    value-truth id v t panic h e k = cc

    decoded-truth :
        (id : ℤ) (t : A) (r : Reply)
        → Tells held s (get (key_of id)) r
        → decoded json (as_text r) ≡ some t
        → truth id ≡ some t
    decoded-truth id t (text v) h e = value-truth id v t (json.unmarshal v) h refl e
    decoded-truth id t nil_reply h e = cc
    decoded-truth id t done h e = cc
    decoded-truth id t (number n) h e = cc
    decoded-truth id t (texts vs) h e = cc
    decoded-truth id t (fields fs) h e = cc
    decoded-truth id t (failed_with x) h e = cc

    entry-truth :
        (m : (ℤ → Option A)) (r : Reply) (id j : ℤ) (t : A) (b : Bool)
        → Tells held s (get (key_of id)) r
        → IsSound id_of truth m
        → int_eq id j ≡ b
        → (if b then decoded json (as_text r) else m j) ≡ some t
        → truth j ≡ some t
    entry-truth m r id j t true told sound same e =
        ap truth (sym (int_eq→eq id j same)) ∙ decoded-truth id t r told e
    entry-truth m r id j t false told sound apart e = sound.entry j t e

    gathered-IsSound :
        (m : (ℤ → Option A)) (ids : List ℤ) (rs : List Reply)
        → AllTell held s (map (λ id. get (key_of id)) ids) rs
        → IsSound id_of truth m
        → IsSound id_of truth (gathered json m ids rs)
    unfolding gathered
    gathered-IsSound m [] rs h sound = sound
    gathered-IsSound m (id ∷ ids) rs (told, h) sound =
        gathered-IsSound (λ j. if int_eq id j then decoded json (as_text (first_reply rs)) else m j)
          ids (rest_replies rs) h
          (record {
            entry = λ j t e. entry-truth m (first_reply rs) id j t (int_eq id j) told sound refl e;
          })

  pub queued-IsGet : (ids : List ℤ) → All IsGet (map (λ id. get (key_of id)) ids)
  queued-IsGet [] = tt
  queued-IsGet (id ∷ ids) = (tt, queued-IsGet ids)

  module _ (client : Client S) (law : IsAnswering held client) where
    abbrev pub IsFine : Result (Option (ℤ → Option A)) → Type 0
    IsFine got = (got ≢ panic) × ((m : (ℤ → Option A)) → got ≡ ok (some m) → IsSound id_of truth m)

    raised : (e : Error) → IsFine (err e)
    raised e = (λ h. cc, λ m h. cc)

    answered : (m : (ℤ → Option A)) → IsSound id_of truth m → IsFine (ok (some m))
    answered m sound = (λ h. cc, λ m' h. subst (IsSound id_of truth) (some_inj m m' h) sound)
      where
        some_inj : (m m' : (ℤ → Option A)) → (ok (some m)) ≡ ok (some m') → m ≡ m'
        some_inj m m' h = ground arith

    finished-IsFine :
        (ids : List ℤ) (executed : Option Error × List Reply) (s s' : S)
        → IsFresh s
        → client.pipeline (get_commands json key_of ids) s ≡ (executed, s')
        → IsFine (finished json client ids executed s').0
    finished-IsFine ids (none, replies) s s' fresh h = answered _ (
        gathered-IsSound s fresh (λ j. none) (asked ids) replies
          (law.answers (get_commands json key_of ids) s replies s' (queued-IsGet (asked ids)) h)
          (record { entry = λ id t e. cc }))
    finished-IsFine ids (some e, replies) s s' fresh h = elim (Bool-cases (is_redis_nil e)) [
      | inl gone ↦ rw gone (raised redis_nil)
      | inr odd ↦ rw odd (raised e)
    ]

    pub get_many-IsFine :
        (ids : List ℤ) (s : S) → IsFresh s → IsFine (get_many json client key_of ids s).0
    get_many-IsFine [] s fresh = answered (λ j. none) (record { entry = λ id t e. cc })
    get_many-IsFine (id ∷ ids) s fresh =
        finished-IsFine (id ∷ ids) (client.pipeline (get_commands json key_of (id ∷ ids)) s).0 s
          (client.pipeline (get_commands json key_of (id ∷ ids)) s).1 fresh refl

  In-get_commands :
      (ids : List ℤ) (id : ℤ)
      → In id ids
      → is_nonpos id ≡ false
      → In (get (key_of id)) (get_commands json key_of ids)
  In-get_commands [] id i valid = elim i [ ]
  In-get_commands (j ∷ ids) id (inl e) valid = rw (sym e) (rw valid (inl refl))
  In-get_commands (j ∷ ids) id (inr i) valid = elim (Bool-cases (is_nonpos j)) [
    | inl skipped ↦ rw skipped (In-get_commands ids id i valid)
    | inr queued ↦ rw queued (inr (In-get_commands ids id i valid))
  ]

  -- A read of many entries of which Redis lacks one returns an error, and no entry.
  pub get_many_missed :
      (client : Client S) (law : IsRefusing held client) (ids : List ℤ) (id : ℤ) (s : S)
      → In id ids
      → is_nonpos id ≡ false
      → held s (key_of id) ≡ none
      → (e : Error) × (s' : S) × (get_many json client key_of ids s ≡ (err e, s'))
  get_many_missed client law [] id s i valid missing = elim i [ ]
  get_many_missed client law (j ∷ ids) id s i valid missing =
      let cs = get_commands json key_of (j ∷ ids) in
      let (e, failed) =
        law.fails cs (key_of id) s (queued-IsGet (asked (j ∷ ids)))
          (In-get_commands (j ∷ ids) id i valid) missing in
      elim (Bool-cases (is_redis_nil e)) [
        | inl gone ↦ (redis_nil, (client.pipeline cs s).1, rw failed (rw gone refl))
        | inr odd ↦ (e, (client.pipeline cs s).1, rw failed (rw odd refl))
      ]
