-- ===== src/SubnetTree/Pruned.antt =====
-- What `filterTree` keeps.
use iop.Base.{
  ◌≡◌, refl, ap₂, ◌⊎◌, inl, inr, Bool, true, false, ◌||◌, List, [], ◌∷◌, ◌++◌, arith, Text, filter,
  filter-append, Bool-cases,
}
use iop.SubnetTree.{NodeInfo, Forest, empty, node, has_nodes, matches, filter_tree}

-- The first forest is the second with some nodes left out, each with all that is below it; every
-- node that is kept stands under the same node as before, and in the same order.
pub data Pruned : Forest → Forest → Type 0 where
  nothing : Pruned empty empty
  kept :
      {n : NodeInfo} {kids kids' rest rest' : Forest}
      → Pruned kids' kids
      → Pruned rest' rest
      → Pruned (node n kids' rest') (node n kids rest)
  dropped :
      {n : NodeInfo} {kids rest rest' : Forest}
      → Pruned rest' rest
      → Pruned rest' (node n kids rest)

-- All nodes, a node before its descendants.
unfoldable pub infos : Forest → List NodeInfo
infos empty = []
infos (node n kids rest) = n ∷ (infos kids ++ infos rest)

-- A node without children matches.
abbrev pub LeavesMatch : (NodeInfo → Bool) → Forest → Type 0
LeavesMatch q empty = Unit
LeavesMatch q (node n kids rest) =
    ((q n ≡ true) ⊎ (has_nodes kids ≡ true)) × LeavesMatch q kids × LeavesMatch q rest

neither : (a b : Bool) → (a || b) ≡ false → (a ≡ false) × (b ≡ false)
neither a b h = ground arith

module _ (lower : Text → Text) (term : Text) where
  filter_tree-Pruned : (f : Forest) → Pruned (filter_tree lower f term) f
  unfolding filter_tree
  filter_tree-Pruned empty = nothing
  filter_tree-Pruned (node n kids rest) =
      elim (Bool-cases (matches lower term n || has_nodes (filter_tree lower kids term))) [
        | inl stays ↦ rw stays (kept (filter_tree-Pruned kids) (filter_tree-Pruned rest))
        | inr goes ↦ rw goes (dropped (filter_tree-Pruned rest))
      ]

  filter_tree-LeavesMatch :
      (f : Forest) → LeavesMatch (matches lower term) (filter_tree lower f term)
  unfolding filter_tree
  filter_tree-LeavesMatch empty = tt
  filter_tree-LeavesMatch (node n kids rest) =
      elim (Bool-cases (matches lower term n || has_nodes (filter_tree lower kids term))) [
        | inl stays ↦ rw stays (
          either (matches lower term n) (has_nodes (filter_tree lower kids term)) stays,
          filter_tree-LeavesMatch kids,
          filter_tree-LeavesMatch rest,
        )
        | inr goes ↦ rw goes (filter_tree-LeavesMatch rest)
      ]
    where
      either : (a b : Bool) → (a || b) ≡ true → (a ≡ true) ⊎ (b ≡ true)
      either a b h = ground arith

  -- A forest that filters to nothing has no matching node.
  filter_tree-none :
      (f : Forest)
      → has_nodes (filter_tree lower f term) ≡ false
      → filter (matches lower term) (infos f) ≡ []
  unfolding filter_tree infos
  filter_tree-none empty h = refl
  filter_tree-none (node n kids rest) h =
      elim (Bool-cases (matches lower term n || has_nodes (filter_tree lower kids term))) [
        | inl stays ↦ cc (rw stays at h)
        | inr goes ↦
            let (unlike, bare) =
              neither (matches lower term n) (has_nodes (filter_tree lower kids term)) goes in
            rw (unlike, filter-append (matches lower term) (infos kids) (infos rest))
              (ap₂ (λ xs ys. xs ++ ys) (filter_tree-none kids bare)
                (filter_tree-none rest (rw goes at h)))
      ]

  filter-infos-filter_tree :
      (f : Forest)
      → filter (matches lower term) (infos (filter_tree lower f term))
        ≡ filter (matches lower term) (infos f)
  unfolding filter_tree infos
  filter-infos-filter_tree empty = refl
  filter-infos-filter_tree (node n kids rest) =
      let q = matches lower term in
      let below = filter-infos-filter_tree kids in
      let beside = filter-infos-filter_tree rest in
      elim (Bool-cases (matches lower term n || has_nodes (filter_tree lower kids term))) [
        | inl stays ↦ rw (
          stays,
          filter-append q (infos (filter_tree lower kids term))
              (infos (filter_tree lower rest term)),
          filter-append q (infos kids) (infos rest),
          below,
          beside,
        )
        | inr goes ↦
            let (unlike, bare) = neither (q n) (has_nodes (filter_tree lower kids term)) goes in
            rw (goes, unlike, filter-append q (infos kids) (infos rest), filter_tree-none kids bare)
              beside
      ]

  -- Filtering leaves nodes out and moves none; every node that matches stays; and a node that does
  -- not match stays only above one that does: without children left, it matches itself.
  pub filter_tree_lem :
      (f : Forest)
      → Pruned (filter_tree lower f term) f
        × (filter (matches lower term) (infos (filter_tree lower f term))
            ≡ filter (matches lower term) (infos f))
        × LeavesMatch (matches lower term) (filter_tree lower f term)
  filter_tree_lem f = (filter_tree-Pruned f, filter-infos-filter_tree f, filter_tree-LeavesMatch f)
