-- ===== src/Repository/Batch/Agree.antt =====
-- What the cache's entries and the store's rows together tell of the table, where the cache is
-- sound.
use aita.Common.{
  ◌≤◌, length, ℤ, int_eq, int_eq_iff, int_eq→eq, ◌≡◌, refl, sym, ◌∙◌, ap₂, inl, inr, Option,
  Option-cases, Bool-cases, In, none, some, List, [], ◌∷◌, All, arith, if◌then◌else◌, ap,
}
use aita.Repository.Batch.{empty_map, missed, insert_all, add_found, collect}

module _ {A : Type 0} (id_of : A → ℤ) where
  -- The entries of the map are those of `truth`.
  pub record IsSound (truth m : (ℤ → Option A)) : Type 0 where
    pub entry : (id : ℤ) (t : A) → m id ≡ some t → truth id ≡ some t

  -- `SELECT … WHERE id = ANY(ids)` over the table `truth`.
  pub record Answers (truth : (ℤ → Option A)) (ids : List ℤ) (rows : List A) : Type 0 where
    pub sound : All (λ r. truth (id_of r) ≡ some r) rows
    pub complete : (id : ℤ) (t : A) → In id ids → truth id ≡ some t → (id_of t ≡ id) × In t rows

  pub insert_all-IsSound :
      (truth m : (ℤ → Option A)) (rows : List A)
      → All (λ r. truth (id_of r) ≡ some r) rows
      → IsSound truth m
      → IsSound truth (insert_all id_of m rows)
  unfolding insert_all
  insert_all-IsSound truth m [] a h = h
  insert_all-IsSound truth m (r ∷ rows) a h =
      insert_all-IsSound truth (λ id. if int_eq (id_of r) id then some r else m id) rows a.1
        (record { entry = λ id t e. ground (arith, int_eq→eq (id_of r) id, a.0, h.entry id t, e) })

  pub insert_all_keeps :
      (m : (ℤ → Option A)) (rows : List A) (id : ℤ) (u : A)
      → m id ≡ some u
      → (v : A) × (insert_all id_of m rows id ≡ some v)
  unfolding insert_all
  insert_all_keeps m [] id u h = (u, h)
  insert_all_keeps m (r ∷ rows) id u h = elim (Bool-cases (int_eq (id_of r) id)) [
    | inl same ↦
        insert_all_keeps (λ id. if int_eq (id_of r) id then some r else m id) rows id r (rw same)
    | inr other ↦
        insert_all_keeps (λ id. if int_eq (id_of r) id then some r else m id) rows id u (rw other h)
  ]

  pub insert_all_has :
      (m : (ℤ → Option A)) (rows : List A) (t : A) (id : ℤ)
      → id_of t ≡ id
      → In t rows
      → (v : A) × (insert_all id_of m rows id ≡ some v)
  unfolding insert_all
  insert_all_has m [] t id same h = elim h [ ]
  insert_all_has m (r ∷ rows) t id same (inl e) =
      insert_all_keeps (λ id. if int_eq (id_of r) id then some r else m id) rows id r
        (rw ((int_eq_iff (id_of r) id).1 (ground (arith, e, same))))
  insert_all_has m (r ∷ rows) t id same (inr h) =
      insert_all_has (λ id. if int_eq (id_of r) id then some r else m id) rows t id same h

  pub missed_has :
      (m : (ℤ → Option A)) (ids : List ℤ) (id : ℤ) → m id ≡ none → In id ids → In id (missed m ids)
  unfolding missed
  missed_has m [] id h i = i
  missed_has m (j ∷ ids) id h (inl e) = rw (ap m (sym e) ∙ h) (inl e)
  missed_has m (j ∷ ids) id h (inr i) = elim (Option-cases (m j)) [
    | inl none_j ↦ rw none_j (inr (missed_has m ids id h i))
    | inr (t, some_j) ↦ rw some_j (missed_has m ids id h i)
  ]

  pub length-missed : (m : (ℤ → Option A)) (ids : List ℤ) → length (missed m ids) ≤ length ids
  unfolding missed
  length-missed m [] = omega arith
  length-missed m (id ∷ ids) = elim (Option-cases (m id)) [
    | inl miss ↦ rw miss (omega (arith, length-missed m ids))
    | inr (t, hit) ↦ rw hit (omega (arith, length-missed m ids))
  ]

  pub filled_has :
      (truth m : (ℤ → Option A)) (ids : List ℤ) (rows : List A)
      → Answers truth (missed m ids) rows
      → (id : ℤ) (t : A) → In id ids
      → truth id ≡ some t
      → (v : A) × (insert_all id_of m rows id ≡ some v)
  filled_has truth m ids rows a id t i e = elim (Option-cases (m id)) [
    | inr (u, hit) ↦ insert_all_keeps m rows id u hit
    | inl miss ↦
        let (same, stored) = a.complete id t (missed_has m ids id miss i) e in
        insert_all_has m rows t id same stored
  ]

  -- With the store's rows for what the map lacks, the map has the truth about every ID asked for.
  pub filled_agrees :
      (truth m : (ℤ → Option A)) (ids : List ℤ) (rows : List A)
      → IsSound truth m
      → Answers truth (missed m ids) rows
      → (id : ℤ) → In id ids
      → insert_all id_of m rows id ≡ truth id
  filled_agrees truth m ids rows h a id i = elim (Option-cases (insert_all id_of m rows id)) [
    | inr (v, e) ↦ e ∙ sym ((insert_all-IsSound truth m rows a.sound h).entry id v e)
    | inl none_id ↦ elim (Option-cases (truth id)) [
      | inl e ↦ none_id ∙ sym e
      | inr (t, e) ↦ let (v, f) = filled_has truth m ids rows a id t i e in cc (none_id, f)
    ]
  ]

module _ {A B : Type 0} (record_of : A → B) where
  pub collect_agree :
      (m truth : (ℤ → Option A)) (ids : List ℤ)
      → ((id : ℤ) → In id ids → m id ≡ truth id)
      → collect record_of m ids ≡ collect record_of truth ids
  unfolding collect
  collect_agree m truth [] h = refl
  collect_agree m truth (id ∷ ids) h =
      ap₂ (add_found record_of) (h id (inl refl)) (collect_agree m truth ids (λ j i. h j (inr i)))

pub missed-empty_map : (A : Type 0) (ids : List ℤ) → missed (empty_map {A = A}) ids ≡ ids
unfolding missed
missed-empty_map A [] = refl
missed-empty_map A (id ∷ ids) = ap (λ js. id ∷ js) (missed-empty_map A ids)
