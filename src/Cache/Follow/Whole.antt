-- ===== src/Cache/Follow/Whole.antt =====
-- What `Add` of internal/cache/follow_cache.go writes: only to lists that are there already. `present`
-- is whether Redis has the key.
use aita.Common.{
  ℕ, ℤ, pos, int_eq, int_eq→eq, ◌≡◌, ◌≢◌, ap, ◌⊎◌, inl, inr, Bool-cases, Bool, true, false, [], ◌∷◌,
  if◌then◌else◌, arith,
}
use aita.Exec.{Result, ok, err, panic, Exec, ◌>>=◌, ◌>>◌, pure}
use aita.Exec.Keeps.{Keeps, Keeps-bind, Keeps-pure}
use aita.Dto.TimeLine.{Codec}
use aita.Pkg.Redis.{
  Key, Command, Creates, z_add, exists, expire, Reply, nil_reply, done, text, number, texts, fields,
  failed_with, Client, as_number, as_unit, ask,
}
use aita.Pkg.Utils.{Rand, Keeps-get_random_expiration}
use aita.Cache.Follow.{add_if_held, add_follow_lua, add}

module _ {S : Type 0} (present : S → Key → Bool) where
  -- What the script relies on.
  pub record IsPresence (client : Client S) : Type 0 where
    pub tells :
        (k : Key) (s : S)
        → (client.run (exists (k ∷ [])) s).0 ≡ number (pos 1)
        → present (client.run (exists (k ∷ [])) s).1 k ≡ true
    pub stays :
        (c : Command) (k : Key) (s : S)
        → Creates k c ⊎ (present s k ≡ false → present (client.run c s).1 k ≡ false)

  module _ (c : Codec) (rand : Rand S) (client : Client S) (law : IsPresence client) (k : Key) where
    abbrev Absent : S → Type 0
    Absent s = present s k ≡ false

    number-eq : (r : Reply) (n : ℤ) → as_number r ≡ ok n → r ≡ number n
    number-eq (number m) n h = ground arith
    number-eq nil_reply n h = cc
    number-eq done n h = cc
    number-eq (text v) n h = cc
    number-eq (texts vs) n h = cc
    number-eq (fields fs) n h = cc
    number-eq (failed_with e) n h = cc

    sent-Keeps : (d : Command) → ¬ Creates k d → Keeps Absent (ask client as_unit d)
    sent-Keeps d apart = record {
      at = λ s h. elim (law.stays d k s) [ inl adds ↦ absurd (apart adds) | inr stays ↦ stays h ];
    }

    abbrev written : Key → ℤ → ℤ → ℕ → Exec S ℤ
    written key score member ttl = do
      ask client as_unit (z_add key ((score, member) ∷ []))
      ask client as_unit (expire key ttl)
      pure (pos 1)

    written-Keeps :
        (key : Key) (score member : ℤ) (ttl : ℕ)
        → key ≢ k
        → Keeps Absent (written key score member ttl)
    written-Keeps key score member ttl apart =
        Keeps-bind _ _ (sent-Keeps (z_add key ((score, member) ∷ [])) apart)
          (λ u. Keeps-bind _ _ (sent-Keeps (expire key ttl) (λ e. e)) (λ v. Keeps-pure (pos 1)))

    add_if_held-Keeps :
        (key : Key) (score member : ℤ) (ttl : ℕ)
        → Keeps Absent (add_if_held c rand client key score member ttl)
    add_if_held-Keeps key score member ttl = record {
      at = λ s h.
          by_reply (as_number (client.run (exists (key ∷ [])) s).0)
            (client.run (exists (key ∷ [])) s).1
            (λ e. law.tells key s (number-eq (client.run (exists (key ∷ [])) s).0 (pos 1) e))
            ((sent-Keeps (exists (key ∷ [])) (λ e. e)).at s h);
    }
      where
        by_reply :
            (r : Result ℤ) (t : S)
            → (r ≡ ok (pos 1) → present t key ≡ true)
            → Absent t
            → Absent
                (((λ (u : S). (r, t)) >>= λ held.
                    if int_eq held (pos 1) then written key score member ttl else pure (pos 0))
                  t).1
        by_reply (ok n) t there h = elim (Bool-cases (int_eq n (pos 1))) [
          | inl one ↦ rw one (
              (written-Keeps key score member ttl
                  (λ e. cc (e, there (ap ok (int_eq→eq n (pos 1) one)), h))).at
                t h)
          | inr none_held ↦ rw none_held h
        ]
        by_reply (err e) t there h = h
        by_reply panic t there h = h

  -- `Add` starts no list: a key that Redis does not have before, it does not have after, if
  -- `EXISTS` tells the truth, no command but the writing ones brings a key into being, and those no
  -- key but their own, and drawing a random number brings none.
  pub add_whole :
      (c : Codec) (rand : Rand S) (client : Client S)
      → IsPresence client
      → ((n : ℕ) (k : Key) → Keeps (λ s. present s k ≡ false) (rand.draw n))
      → (follower_id following_id score : ℤ) (k : Key) (s : S) → present s k ≡ false
      → present (add c rand client follower_id following_id score s).1 k ≡ false
  unfolding add add_follow_lua
  add_whole c rand client law calm follower_id following_id score k s h =
      (Keeps-bind _ _ (Keeps-get_random_expiration rand _ _ (λ n. calm n k)) (λ ttl.
          Keeps-bind _ _
            (Keeps-bind _ _ (add_if_held-Keeps c rand client law k _ _ _ _) (λ first.
              Keeps-bind _ _ (add_if_held-Keeps c rand client law k _ _ _ _)
                (λ second. Keeps-pure _)))
            (λ added. Keeps-pure tt))).at
        s h
