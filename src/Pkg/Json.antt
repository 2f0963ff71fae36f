-- ===== src/Pkg/Json.antt =====
-- The conversions of encoding/json for one type of the program's: a parameter.
use aita.Common.{String}
use aita.Exec.{Result}

pub record Json (A : Type 0) : Type 0 where
  pub marshal : A → Result String
  pub unmarshal : String → Result A
