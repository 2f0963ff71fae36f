-- ===== src/Pkg/Calm.antt =====
-- Calls of the pool, of the flights and of Redis that end without a panic.
use aita.Common.{Option, none, some, List, if◌then◌else◌}
use aita.Errcode.{Error, foreign}
use aita.Exec.{Result, Exec, ◌>>◌, pure, raise, Attempt, returned, failed, attempt}
use aita.Exec.Calm.{
  Lands, Any, Calm, Calm-pure, Calm-raise, Calm-if, Calm-bind, Calm-attempt, Calm-any,
}
use aita.Pkg.Pool.{Pool, ignore, on_error}
use aita.Pkg.Singleflight.{Group, Waits, get_data_with_sf}
use aita.Pkg.Redis.{
  Command, Reply, nil_reply, Client, as_text, as_number, as_texts, as_unit, outcome, ask, piped,
  exec_all,
}

module _ {S A : Type 0} where
  pub Calm-ignore : (m : Exec S A) → Calm Any m → Calm Any (ignore m)
  Calm-ignore m c =
      Calm-bind (attempt m) (λ _. pure tt) (Calm-any (attempt m) (Calm-attempt m c))
        (λ a. Calm-pure tt tt)

  pub Calm-on_error :
      (m : Exec S A) (g : Exec S Unit) → Calm Any m → Calm Any g → Calm Any (on_error m g)
  Calm-on_error m g cm cg =
      Calm-bind (attempt m) _ (Calm-any (attempt m) (Calm-attempt m cm)) by_attempt
    where
      by_attempt :
          (r : Attempt A)
          → Calm Any
              (elim r as (λ _. Exec S Unit) [ Attempt.returned _ ↦ pure tt | Attempt.failed _ ↦ g ])
      by_attempt (returned a) = Calm-pure tt tt
      by_attempt (failed e) = cg

-- A pool that hands back an error at worst.
pub record IsCalmPool {S T : Type 0} (pool : Pool S T) : Type 0 where
  pub submits : (t : T) → Calm Any (pool.submit t)

-- A flight whose function ends without a panic does so for all who wait for it.
pub record IsCalmGroup {S K : Type 0} {V : K → Type 0} (sf : Group S V) : Type 0 where
  pub flies : (key : K) (fn : Exec S (V key)) → Calm Any fn → Calm Any (sf.do_chan key fn)

pub Calm-get_data :
    {S K : Type 0} {V : K → Type 0} (w : Waits) (sf : Group S V) (key : K) (fn : Exec S (V key))
    → IsCalmGroup sf
    → Calm Any fn
    → Calm Any (get_data_with_sf w sf key fn)
unfolding get_data_with_sf
Calm-get_data {S} {K} {V} w sf key fn calm c = by_slot w.no_slot w.no_result
  where
    by_result :
        (o : Option Error)
        → Calm {S = S} {A = V key} Any (elim o as (λ _. Exec S (V key)) [
          | some e ↦ do
            attempt (sf.do_chan key fn)
            if w.deadline_exceeded then raise (foreign 1) else raise e
          | none ↦ sf.do_chan key fn
        ])
    by_result none = calm.flies key fn c
    by_result (some e) =
        Calm-bind (attempt (sf.do_chan key fn)) _
          (Calm-any (attempt (sf.do_chan key fn))
            (Calm-attempt (sf.do_chan key fn) (calm.flies key fn c)))
          (λ a. Calm-if w.deadline_exceeded _ _ (Calm-raise (foreign 1)) (Calm-raise e))

    by_slot :
        (o r : Option Error)
        → Calm {S = S} {A = V key} Any (elim o as (λ _. Exec S (V key)) [
          | some e ↦ raise e
          | none ↦ elim r as (λ _. Exec S (V key)) [
            | some e ↦ do
              attempt (sf.do_chan key fn)
              if w.deadline_exceeded then raise (foreign 1) else raise e
            | none ↦ sf.do_chan key fn
          ]
        ])
    by_slot (some e) r = Calm-raise e
    by_slot none r = by_result r

-- What a reply is read as.
pub as_text-Lands : (r : Reply) → Lands Any (as_text r)
as_text-Lands nil_reply = tt
as_text-Lands _ = tt

pub as_number-Lands : (r : Reply) → Lands Any (as_number r)
as_number-Lands nil_reply = tt
as_number-Lands _ = tt

pub as_texts-Lands : (r : Reply) → Lands Any (as_texts r)
as_texts-Lands nil_reply = tt
as_texts-Lands _ = tt

pub as_unit-Lands : (r : Reply) → Lands Any (as_unit r)
as_unit-Lands nil_reply = tt
as_unit-Lands _ = tt

module _ {S : Type 0} (client : Client S) where
  pub Calm-ask :
      {A : Type 0} (read : Reply → Result A) (c : Command)
      → ((r : Reply) → Lands Any (read r))
      → Calm Any (ask client read c)
  Calm-ask read c lands = record { at = λ s. lands (client.run c s).0 }

  pub Calm-piped : (cs : List Command) → Calm Any (piped client cs)
  Calm-piped cs = record { at = λ s. tt }

  pub Calm-exec_all : (cs : List Command) → Calm Any (exec_all client cs)
  Calm-exec_all cs = record { at = λ s. by_outcome (client.pipeline cs s).0 }
    where
      by_outcome : (o : Option Error × List Reply) → Lands Any (outcome client o)
      by_outcome (none, rs) = tt
      by_outcome (some e, rs) = tt
