-- ===== src/Api/Response/Calm.antt =====
-- The ways of internal/pkg/app/response.go and of the handlers to answer end without a panic.
use aita.Common.{Option, none, some, arith}
use aita.Errcode.{Error, Sentinel, BindError, sentinel, filter_bind_error}
use aita.Exec.{Result, Exec, lift, pure, Attempt, returned, failed}
use aita.Exec.Calm.{
  Lands, Any, IsSome, Tried, Calm, Calm-pure, Calm-lift, Calm-bind_with, Calm-attempt,
}
use aita.Api.Response.{Sent, Bound, bound, unbound, refused, after, or_refuse, filtered, with_body}

filter_bind_error-IsSome : (e : BindError) → IsSome (filter_bind_error (some e))
unfolding filter_bind_error
filter_bind_error-IsSome e = ground arith

module _ {S : Type 0} where
  pub refused-Calm : (e : Error) → Calm {S = S} Any (pure (refused e))
  refused-Calm e = Calm-pure (refused e) tt

  pub or_refuse-Calm :
      {A : Type 0} (P : A → Type 0) (m : Exec S A) (f : A → Exec S Sent)
      → Calm P m
      → ((a : A) → P a → Calm Any (f a))
      → Calm Any (or_refuse m f)
  unfolding or_refuse
  or_refuse-Calm {A} P m f cm cf = Calm-bind_with (Tried P) _ _ (Calm-attempt m cm) by_attempt
    where
      by_attempt : (a : Attempt A) → Tried P a → Calm Any (after f a)
      by_attempt (returned a) h = cf a h
      by_attempt (failed e) h = refused-Calm e

  -- A step that touches no state.
  pub or_refuse-lift :
      {A : Type 0} (r : Result A) (f : A → Exec S Sent)
      → Lands Any r
      → ((a : A) → Calm Any (f a))
      → Calm Any (or_refuse (lift r) f)
  or_refuse-lift r f h c = or_refuse-Calm Any (lift r) f (Calm-lift r h) (λ a t. c a)

  pub with_body-Calm :
      {A : Type 0} (body : Bound A) (f : A → Exec S Sent)
      → ((a : A) → Calm Any (f a))
      → Calm Any (with_body body f)
  unfolding with_body
  with_body-Calm (bound a) f h = h a
  with_body-Calm (unbound e) f h =
      by_filter (filter_bind_error (some e)) (filter_bind_error-IsSome e)
    where
      by_filter : (o : Option Sentinel) → IsSome o → Calm Any (filtered {S = S} o)
      by_filter none h = absurd h
      by_filter (some c) h = refused-Calm (sentinel c)
