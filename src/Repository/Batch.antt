-- ===== src/Repository/Batch.antt =====
-- How `MultiGet` of internal/repository/tweet_repository.go and `GetBaseInfos` of
-- internal/repository/user_repository.go put together what the cache knew and the store's rows.
pub mod Agree
use aita.Common.{ℤ, int_eq, Bool, true, false, Option, none, some, List, [], ◌∷◌, if◌then◌else◌}

module _ {A : Type 0} where
  abbrev pub empty_map : ℤ → Option A
  empty_map id = none

  abbrev pub miss : ℤ → Option A → List ℤ → List ℤ
  miss id none rest = id ∷ rest
  miss id (some t) rest = rest

  -- The IDs that the map lacks, in their order.
  unfoldable pub missed : (ℤ → Option A) → List ℤ → List ℤ
  missed m [] = []
  missed m (id ∷ ids) = miss id (m id) (missed m ids)

  -- `for … { tweetsMap[tweet.ID] = tweet }`
  unfoldable pub insert_all : (A → ℤ) → (ℤ → Option A) → List A → ℤ → Option A
  insert_all id_of m [] = m
  insert_all id_of m (t ∷ ts) =
      insert_all id_of (λ id. if int_eq (id_of t) id then some t else m id) ts

module _ {A B : Type 0} (record_of : A → B) where
  abbrev pub add_found : Option A → List B → List B
  add_found none rest = rest
  add_found (some t) rest = record_of t ∷ rest

  -- `finalResults`
  unfoldable pub collect : (ℤ → Option A) → List ℤ → List B
  collect m [] = []
  collect m (id ∷ ids) = add_found (m id) (collect m ids)
