-- ===== src/Duplicates/Flattened.antt =====
-- The records that `flattenIds` of frontend/src/components/common/DuplicatesModal.tsx collects.
use iop.Base.{
  ◌≡◌, refl, ◌∙◌, inl, inr, false, ◌||◌, List, [], ◌∷◌, ◌++◌, map, Text, text_eq, includes,
  includes-append, ◌==◌, apply_same, same_comm, Distinct, arith, Bool-cases,
}
use iop.Duplicates.{
  DuplicateRecordRef, DuplicateGroup, add_id, add_records, add_groups, flatten_ids,
}

-- The ids of all records of the groups, in their order.
abbrev pub ids_of : List DuplicateRecordRef → List Text
ids_of rs = map (λ r. r.id) rs

abbrev pub all_ids : List DuplicateGroup → List Text
all_ids [] = []
all_ids (g ∷ gs) = ids_of g.records ++ all_ids gs

includes-add_id :
    (ids : List Text) (id i : Text) → includes (add_id ids id) i ≡ (includes ids i || (id == i))
includes-add_id ids id i = elim (Bool-cases (includes ids id)) [
  | inl old ↦ rw old (ground (arith, apply_same (λ k. includes ids k) id i))
  | inr new ↦ rw new (ground (arith, includes-append ids (id ∷ []) i))
]

-- A new element at the end keeps a list without repetitions.
Distinct-snoc :
    (ids : List Text) (id : Text)
    → Distinct ids
    → includes ids id ≡ false
    → Distinct (ids ++ id ∷ [])
Distinct-snoc [] id d new = (refl, tt)
Distinct-snoc (i ∷ ids) id d new = (
  ground (arith, includes-append ids (id ∷ []) i, same_comm id i, d.0),
  Distinct-snoc ids id d.1 (ground arith),
)

Distinct-add_id : (ids : List Text) (id : Text) → Distinct ids → Distinct (add_id ids id)
Distinct-add_id ids id d = elim (Bool-cases (includes ids id)) [
  | inl old ↦ rw old d
  | inr new ↦ rw new (Distinct-snoc ids id d new)
]

add_records_lem :
    (rs : List DuplicateRecordRef) (ids : List Text)
    → Distinct ids
    → Distinct (add_records ids rs)
      × ((i : Text) → includes (add_records ids rs) i ≡ (includes ids i || includes (ids_of rs) i))
unfolding add_records
add_records_lem [] ids d = (d, λ i. ground arith)
add_records_lem (r ∷ rs) ids d =
    let rest = add_records_lem rs (add_id ids r.id) (Distinct-add_id ids r.id d) in
    (rest.0, λ i. rest.1 i ∙ ground (arith, includes-add_id ids r.id i))

add_groups_lem :
    (gs : List DuplicateGroup) (ids : List Text)
    → Distinct ids
    → Distinct (add_groups ids gs)
      × ((i : Text) → includes (add_groups ids gs) i ≡ (includes ids i || includes (all_ids gs) i))
unfolding add_groups
add_groups_lem [] ids d = (d, λ i. ground arith)
add_groups_lem (g ∷ gs) ids d =
    let here = add_records_lem g.records ids d in
    let rest = add_groups_lem gs (add_records ids g.records) here.0 in
    (
      rest.0,
      λ i. rest.1 i ∙ ground (arith, here.1 i, includes-append (ids_of g.records) (all_ids gs) i),
    )

-- The ids that are scanned are those of the records of all groups, each once, though a record can
-- stand in several groups.
pub flatten_ids_lem :
    (groups : List DuplicateGroup)
    → Distinct (flatten_ids groups)
      × ((i : Text) → includes (flatten_ids groups) i ≡ includes (all_ids groups) i)
unfolding flatten_ids
flatten_ids_lem groups = add_groups_lem groups [] tt
