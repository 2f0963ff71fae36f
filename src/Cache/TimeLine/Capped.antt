-- ===== src/Cache/TimeLine/Capped.antt =====
-- How long the timelines that internal/cache/timeline_cache.go writes can get. `size` is how many
-- members Redis has under a key.
use aita.Common.{
  ℕ, ◌≤◌, ℤ, pos, negsuc, int_eq, int_eq→eq, int_eq_refl, ◌≡◌, refl, ap, sym, subst, ◌⊎◌, inl, inr,
  Bool-cases, In, Option, none, some, List, [], ◌∷◌, ◌++◌, arith,
}
use aita.Errcode.{Error}
use aita.Exec.{ok, pure, >>=-eq-ok}
use aita.Exec.Keeps.{Keeps, Keeps-bind, Keeps-pure}
use aita.Models.{Time, Tweet}
use aita.Dto.TimeLine.{Codec}
use aita.Pkg.Redis.{
  Key, timeline, Command, Adds, z_add, z_rem_range_by_rank, expire, Reply, Client, error_of,
  outcome, exec_all,
}
use aita.Pkg.Utils.{Rand, Keeps-get_random_expiration}
use aita.Cache.TimeLine.{
  push_commands, push_all, push_batch, backfill_commands, backfill_ids, lifetime,
}

module _ {S : Type 0} (client : Client S) where
  -- The commands were run one after the other, without an error.
  abbrev pub Ran : List Command → S → S → Type 0
  Ran [] s s' = s ≡ s'
  Ran (c ∷ cs) s s' = (error_of (client.run c s).0 ≡ none) × Ran cs (client.run c s).1 s'

  -- What the cache relies on.
  pub record IsSortedSets (size : S → Key → ℕ) : Type 0 where
    pub trims :
        (k : Key) (s : S)
        → error_of (client.run (z_rem_range_by_rank k (pos 0) (negsuc 1000)) s).0 ≡ none
        → size (client.run (z_rem_range_by_rank k (pos 0) (negsuc 1000)) s).1 k ≤ 1000
    pub grows : (c : Command) (k : Key) (s : S) → Adds k c ⊎ (size (client.run c s).1 k ≤ size s k)
    pub pipes :
        (cs : List Command) (s : S) (rs : List Reply) (s' : S)
        → client.pipeline cs s ≡ ((none, rs), s')
        → Ran cs s s'

  Ran-++ :
      (cs ds : List Command) (s s' : S) → Ran (cs ++ ds) s s' → (m : S) × Ran cs s m × Ran ds m s'
  Ran-++ [] ds s s' r = (s, refl, r)
  Ran-++ (c ∷ cs) ds s s' (fine, r) =
      let (m, before, after) = Ran-++ cs ds (client.run c s).1 s' r in (m, (fine, before), after)

  outcome-ok : (r : Option Error × List Reply) → outcome client r ≡ ok tt → r.0 ≡ none
  outcome-ok (none, rs) h = refl
  outcome-ok (some e, rs) h = cc

  exec_all-Ran :
      (size : S → Key → ℕ)
      → IsSortedSets size
      → (cs : List Command) (s s' : S) → exec_all client cs s ≡ (ok tt, s')
      → Ran cs s s'
  exec_all-Ran size law cs s s' h = law.pipes cs s (client.pipeline cs s).0.1 s' (λ i. (
    (outcome-ok (client.pipeline cs s).0 (ap (λ p. p.0) h) i, (client.pipeline cs s).0.1),
    (h i).1,
  ))

  module _ (size : S → Key → ℕ) (law : IsSortedSets size) (c : Codec) (rand : Rand S)
      (calm : (k : Key) (n m : ℕ) → Keeps (λ s. size s k ≤ m) (rand.draw n)) where
    abbrev IsCapped : Key → S → Type 0
    IsCapped k s = size s k ≤ 1000

    -- A command that does not add under the key.
    kept :
        (d : Command) (k : Key) (s : S) → ¬ Adds k d → IsCapped k s → IsCapped k (client.run d s).1
    kept d k s other h = elim (law.grows d k s) [
      | inl adds ↦ absurd (other adds)
      | inr le ↦ omega (arith, le, h)
    ]

    abbrev added : ℤ → ℤ → ℤ → S → S
    added tweet_id score id s = (client.run (z_add (timeline id) ((score, tweet_id) ∷ [])) s).1

    abbrev trim : ℤ → Command
    trim id = z_rem_range_by_rank (timeline id) (pos 0) (negsuc 1000)

    -- The member is added, and then the timeline is cut.
    cut :
        (tweet_id score id j : ℤ) (s : S)
        → error_of (client.run (trim id) (added tweet_id score id s)).0 ≡ none
        → (id ≡ j) ⊎ IsCapped (timeline j) s
        → IsCapped (timeline j) (client.run (trim id) (added tweet_id score id s)).1
    cut tweet_id score id j s trimmed h = elim (Bool-cases (int_eq id j)) [
      | inl same ↦
          subst (λ x. IsCapped (timeline x) (client.run (trim id) (added tweet_id score id s)).1)
            (int_eq→eq id j same) (law.trims (timeline id) _ trimmed)
      | inr apart ↦ elim h [
        | inl same ↦ absurd (cc (same, apart, int_eq_refl j))
        | inr capped ↦
            kept (z_rem_range_by_rank (timeline id) (pos 0) (negsuc 1000)) (timeline j) _ (λ e. e)
              (kept (z_add (timeline id) ((score, tweet_id) ∷ [])) (timeline j) s
                (λ e. cc (e, apart, int_eq_refl j)) capped)
      ]
    ]

    push_kept :
        (tweet_id score id : ℤ) (ttl : ℕ) (j : ℤ) (s s' : S)
        → Ran (push_commands c rand client tweet_id score id ttl) s s'
        → (id ≡ j) ⊎ IsCapped (timeline j) s
        → IsCapped (timeline j) s'
    push_kept tweet_id score id ttl j s s' (sent, (trimmed, (expired, done))) h =
        subst (IsCapped (timeline j)) done (
          kept (expire (timeline id) ttl) (timeline j) _ (λ e. e)
            (cut tweet_id score id j s trimmed h))

    -- The commands of `PushBatch`, whatever the times to live.
    Pushes : ℤ → ℤ → List ℤ → List Command → Type 0
    Pushes tweet_id score [] cs = cs ≡ []
    Pushes tweet_id score (id ∷ ids) cs =
        (ttl : ℕ) × (rest : List Command) × (cs
          ≡ push_commands c rand client tweet_id score id ttl ++ rest)
        × Pushes tweet_id score ids rest

    same : {A : Type 0} {a b : A} {s t : S} → pure a s ≡ (ok b, t) → b ≡ a
    same h = ground arith

    push_all-Pushes :
        (tweet_id score : ℤ) (ids : List ℤ) (cs : List Command) (s s' : S)
        → push_all c rand client tweet_id score ids s ≡ (ok cs, s')
        → Pushes tweet_id score ids cs
    unfolding push_all Pushes
    push_all-Pushes tweet_id score [] cs s s' h = same h
    push_all-Pushes tweet_id score (id ∷ ids) cs s s' h =
        let (ttl, t, drawn, e) = >>=-eq-ok (lifetime c rand client) _ s h in
        let (rest, u, others, f) = >>=-eq-ok (push_all c rand client tweet_id score ids) _ t e in
        (ttl, rest, same f, push_all-Pushes tweet_id score ids rest t u others)

    pushes_kept :
        (tweet_id score : ℤ) (ids : List ℤ) (cs : List Command) (j : ℤ) (s s' : S)
        → Pushes tweet_id score ids cs
        → Ran cs s s'
        → In j ids ⊎ IsCapped (timeline j) s
        → IsCapped (timeline j) s'
    unfolding Pushes
    pushes_kept tweet_id score [] cs j s s' p r (inl i) = elim i [ ]
    pushes_kept tweet_id score [] cs j s s' p r (inr capped) =
        subst (IsCapped (timeline j)) (subst (λ ds. Ran ds s s') p r) capped
    pushes_kept tweet_id score (id ∷ ids) cs j s s' (ttl, rest, e, p) r h =
        let (m, mine, others) =
          Ran-++ (push_commands c rand client tweet_id score id ttl) rest s s'
            (subst (λ ds. Ran ds s s') e r) in
        let own = push_kept tweet_id score id ttl j s m mine in
        pushes_kept tweet_id score ids rest j m s' p others (elim h [
          | inl (inl here) ↦ inr (own (inl (sym here)))
          | inl (inr later) ↦ inl later
          | inr capped ↦ inr (own (inr capped))
        ])

    lifetime_kept : (k : Key) → Keeps (IsCapped k) (lifetime c rand client)
    lifetime_kept k = Keeps-get_random_expiration rand (pos 72) (pos 3) (λ n. calm k n 1000)

    push_all_kept :
        (k : Key) (tweet_id score : ℤ) (ids : List ℤ)
        → Keeps (IsCapped k) (push_all c rand client tweet_id score ids)
    unfolding push_all
    push_all_kept k tweet_id score [] = Keeps-pure []
    push_all_kept k tweet_id score (id ∷ ids) =
        Keeps-bind _ _ (lifetime_kept k)
          (λ ttl. Keeps-bind _ _ (push_all_kept k tweet_id score ids) (λ rest. Keeps-pure _))

    -- After a push that succeeded, the timelines to which it pushed have at most 1000 members, and
    -- so have those that had at most 1000 before: if `ZREMRANGEBYRANK` from 0 to -1001 leaves at
    -- most 1000, no command but `ZADD` adds members, a pipeline without an error has run its
    -- commands in their order, and drawing a random number touches no timeline.
    pub push_batch-IsCapped :
        (tweet_id : ℤ) (user_ids : List ℤ) (created_at : Time) (s s' : S) (j : ℤ)
        → push_batch c rand client tweet_id user_ids created_at s ≡ (ok tt, s')
        → In j user_ids ⊎ (size s (timeline j) ≤ 1000)
        → size s' (timeline j) ≤ 1000
    unfolding push_batch
    push_batch-IsCapped tweet_id user_ids created_at s s' j h before =
        let score = c.unix created_at in
        let (cs, t, made, sent) =
          >>=-eq-ok (push_all c rand client tweet_id score user_ids) _ s h in
        pushes_kept tweet_id score user_ids cs j t s'
          (push_all-Pushes tweet_id score user_ids cs s t made) (exec_all-Ran size law cs t s' sent)
          (elim before [
            | inl pushed ↦ inl pushed
            | inr capped ↦ inr (
                subst (IsCapped (timeline j)) (ap (λ p. p.1) made)
                  ((push_all_kept (timeline j) tweet_id score user_ids).at s capped))
          ])

    adds_done :
        (user_id : ℤ) (tweets : List Tweet) (ttl : ℕ) (t s' : S)
        → Ran (backfill_commands c rand client user_id tweets ttl) t s'
        → IsCapped (timeline user_id) s'
    adds_done user_id [] ttl t s' (trimmed, (expired, done)) =
        subst (IsCapped (timeline user_id)) done (
          kept (expire (timeline user_id) ttl) (timeline user_id) _ (λ e. e)
            (law.trims (timeline user_id) t trimmed))
    adds_done user_id (w ∷ tweets) ttl t s' (sent, others) =
        adds_done user_id tweets ttl _ s' others

    -- A timeline that was filled again has at most 1000 members.
    pub backfill_ids-IsCapped :
        (user_id : ℤ) (t : Tweet) (tweets : List Tweet) (s s' : S)
        → backfill_ids c rand client user_id (t ∷ tweets) s ≡ (ok tt, s')
        → size s' (timeline user_id) ≤ 1000
    unfolding backfill_ids
    backfill_ids-IsCapped user_id t tweets s s' h =
        let (ttl, u, drawn, sent) = >>=-eq-ok (lifetime c rand client) _ s h in
        adds_done user_id (t ∷ tweets) ttl u s' (
          exec_all-Ran size law (backfill_commands c rand client user_id (t ∷ tweets) ttl) u s'
            sent)
