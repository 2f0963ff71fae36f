-- ===== src/Api/Response/Paid.antt =====
-- How an answer with a payload came about: internal/pkg/app/response.go, where a failure has none.
use aita.Common.{◌≡◌, refl, ap, Option, none, some, arith}
use aita.Errcode.{Error, Sentinel, sentinel, filter_bind_error}
use aita.Exec.{Exec, ok, pure, >>=-eq-ok, Attempt, returned, failed, attempt, attempt-eq-returned}
use aita.Api.Response.{
  Payload, Sent, Bound, bound, unbound, fail_with, refused, after, or_refuse, filtered, with_body,
}

-- The answer and the state after it, where the answer has this payload.
abbrev pub Pays : {S : Type 0} → Exec S Sent → S → Payload → S → Type 0
Pays m s x s' = (sent : Sent) × (m s ≡ (ok sent, s')) × (sent.1.payload ≡ some x)

module _ {S : Type 0} where
  refused-unpaid : (e : Error) (s : S) (x : Payload) (s' : S) → Pays (pure (refused e)) s x s' → ⊥
  unfolding fail_with
  refused-unpaid e s x s' (sent, h, paid) =
      let same : sent ≡ refused e = ground (arith, h) in
      cc (ap (λ (r : Sent). r.1.payload) same, paid)

  -- The call succeeded, and what follows it paid.
  pub or_refuse-Pays :
      {A : Type 0} (m : Exec S A) (f : A → Exec S Sent) (s : S) (x : Payload) (s' : S)
      → Pays (or_refuse m f) s x s'
      → (a : A) × (t : S) × (m s ≡ (ok a, t)) × Pays (f a) t x s'
  unfolding or_refuse
  or_refuse-Pays {A} m f s x s' (sent, h, paid) =
      let (o, t, first, rest) = >>=-eq-ok (attempt m) (after f) s h in
      by_attempt o t first (sent, rest, paid)
    where
      by_attempt :
          (o : Attempt A) (t : S)
          → attempt m s ≡ (ok o, t)
          → Pays (after f o) t x s'
          → (a : A) × (t : S) × (m s ≡ (ok a, t)) × Pays (f a) t x s'
      by_attempt (returned a) t first rest = (a, t, attempt-eq-returned m s a t first, rest)
      by_attempt (failed e) t first rest = absurd (refused-unpaid e t x s' rest)

  -- The body was bound.
  pub with_body-Pays :
      {A : Type 0} (body : Bound A) (f : A → Exec S Sent) (s : S) (x : Payload) (s' : S)
      → Pays (with_body body f) s x s'
      → (a : A) × (body ≡ bound a) × Pays (f a) s x s'
  unfolding with_body
  with_body-Pays (bound a) f s x s' h = (a, refl, h)
  with_body-Pays (unbound e) f s x s' h = absurd (by_filter (filter_bind_error (some e)) h)
    where
      by_filter : (o : Option Sentinel) → Pays (filtered o) s x s' → ⊥
      by_filter none (sent, k, paid) = cc
      by_filter (some c) k = refused-unpaid (sentinel c) s x s' k
