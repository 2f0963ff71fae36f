-- ===== src/Api/Response/Status.antt =====
-- The status and the envelope of an answer agree: internal/pkg/app/response.go with
-- internal/errcode.
use aita.Common.{ℕ, ◌≤◌, String, ◌≡◌, refl, inl, inr, Option, none, some, ◌⊎◌, arith}
use aita.Errcode.{Error, Sentinel, sentinel, get_status_code, filter_bind_error}
use aita.Errcode.Laws.{get_status_code_lem}
use aita.Exec.{Exec, pure, Attempt, returned, failed, attempt}
use aita.Exec.Gives.{Gives, Gives-pure, Gives-crash, Gives-bind}
use aita.Api.Response.{
  Payload, Response, Sent, Bound, bound, unbound, fail_with, success, success_msg, refused, after,
  or_refuse, filtered, with_body,
}

-- A success with a code of success, or a failure with its error and no payload.
pub data IsConsistent : Sent → Type 0 where
  succeeds :
      (status : ℕ) (body : Response)
      → (status ≡ 200) ⊎ (status ≡ 201)
      → body.error ≡ none
      → IsConsistent (status, body)
  fails :
      (status : ℕ) (body : Response) (e : Error)
      → 400 ≤ status
      → body.error ≡ some e
      → body.payload ≡ none
      → IsConsistent (status, body)

pub status-le : (e : Error) → 400 ≤ get_status_code (some e)
status-le e = elim (get_status_code_lem e) [
  | inl client ↦ client.at_least
  | inr server ↦ omega (arith, server.status)
]

pub refused-IsConsistent :
    (status : ℕ) (e : Error) → 400 ≤ status → IsConsistent (status, fail_with e)
unfolding fail_with
refused-IsConsistent status e h = fails status (fail_with e) e h refl refl

pub ok-IsConsistent : (payload : Payload) → IsConsistent (200, success payload)
unfolding success
ok-IsConsistent payload = succeeds 200 (success payload) (inl refl) refl

pub created-IsConsistent : (payload : Payload) → IsConsistent (201, success payload)
unfolding success
created-IsConsistent payload = succeeds 201 (success payload) (inr refl) refl

pub msg-IsConsistent : (msg : String) → IsConsistent (200, success_msg msg)
unfolding success_msg
msg-IsConsistent msg = succeeds 200 (success_msg msg) (inl refl) refl

module _ {S : Type 0} where
  pub refused-Fine : (e : Error) → Gives {S = S} IsConsistent (pure (refused e))
  refused-Fine e =
      Gives-pure (refused e) (refused-IsConsistent (get_status_code (some e)) e (status-le e))

  after-Fine :
      {A : Type 0} (f : A → Exec S Sent)
      → ((a : A) → Gives IsConsistent (f a))
      → (a : Attempt A) → Gives IsConsistent (after f a)
  after-Fine f h (returned a) = h a
  after-Fine f h (failed e) = refused-Fine e

  pub or_refuse-Fine :
      {A : Type 0} (m : Exec S A) (f : A → Exec S Sent)
      → ((a : A) → Gives IsConsistent (f a))
      → Gives IsConsistent (or_refuse m f)
  unfolding or_refuse
  or_refuse-Fine m f h = Gives-bind (attempt m) (after f) (after-Fine f h)

  pub with_body-Fine :
      {A : Type 0} (body : Bound A) (f : A → Exec S Sent)
      → ((a : A) → Gives IsConsistent (f a))
      → Gives IsConsistent (with_body body f)
  unfolding with_body
  with_body-Fine (bound a) f h = h a
  with_body-Fine (unbound e) f h = by_filter (filter_bind_error (some e))
    where
      by_filter : (o : Option Sentinel) → Gives IsConsistent (filtered {S = S} o)
      by_filter none = Gives-crash
      by_filter (some c) = refused-Fine (sentinel c)
