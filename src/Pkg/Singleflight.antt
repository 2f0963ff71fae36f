-- ===== src/Pkg/Singleflight.antt =====
-- internal/pkg/singleflight/singleflight.go. The group of golang.org/x/sync is a parameter: its
-- `do_chan` runs the function, or hands on the result of a call under the same key that is on its
-- way. The results of a key `k` have one type, `V k`, so the type assertion of the code cannot fail.
use aita.Common.{Bool, Option, none, some, if◌then◌else◌}
use aita.Errcode.{Error, foreign}
use aita.Exec.{Exec, attempt, ◌>>◌, raise}

pub record Group (S : Type 0) {K : Type 0} (V : K → Type 0) : Type 0 where
  pub do_chan : (key : K) → Exec S (V key) → Exec S (V key)

-- What the two `select`s of one call meet: the caller's context may end before a slot of
-- `limitSem` is free, and before the result is there.
pub record Waits : Type 0 where
  pub no_slot : Option Error
  pub no_result : Option Error
  pub deadline_exceeded : Bool

abbrev pub calm : Waits
calm = record { no_slot = none; no_result = none; deadline_exceeded = Bool.false }

-- GetDataWithSF: on a caller that stops waiting the flight goes on, and its result is dropped.
-- The code wraps `innerCtx.Err()`, which is nil unless the flight has timed out too.
unfoldable pub get_data_with_sf :
    {S K : Type 0} {V : K → Type 0}
    → Waits
    → Group S V
    → (key : K) → Exec S (V key)
    → Exec S (V key)
get_data_with_sf w sf key fn = elim w.no_slot [
  | some e ↦ raise e
  | none ↦ elim w.no_result [
    | some e ↦ do
      attempt (sf.do_chan key fn)
      if w.deadline_exceeded then raise (foreign 1) else raise e
    | none ↦ sf.do_chan key fn
  ]
]
