-- ===== src/SubnetTree.antt =====
-- The tree of frontend/src/pages/Subnets/SubnetsPage.tsx: `stripEmptyChildren`, `filterTree`,
-- `collectExpandableIds`, and what the table is given. `toLowerCase` is the parameter `lower`.
pub mod Pruned
pub mod Expanded
pub mod Requests
pub mod Scan
mod Tests
use iop.Base.{
  ℕ, Bool, true, false, not, ◌||◌, List, [], ◌∷◌, ◌++◌, Option, none, some, Text, if◌then◌else◌,
}
use iop.Types.Subnet.{SubnetDetail}
use iop.Text.Search.{contains, is_empty}
use iop.Text.Trim.{trim}

-- A `SubnetTreeNode` but for its children.
pub record NodeInfo : Type 0 where
  pub detail : SubnetDetail
  pub open detail use *
  pub key : Text
  pub utilization_pct : ℕ

-- `SubnetTreeNode[]`: the first node with its children, and the other nodes.
pub data Forest : Type 0 where
  empty : Forest
  node : NodeInfo → Forest → Forest → Forest

-- The rows of the table, whose `children` may be `undefined`.
pub data Rows : Type 0 where
  no_rows : Rows
  leaf : NodeInfo → Rows → Rows
  branch : NodeInfo → Rows → Rows → Rows

-- `node.children.length > 0`
abbrev pub has_nodes : Forest → Bool
has_nodes empty = false
has_nodes (node n kids rest) = true

unfoldable pub strip_empty_children : Forest → Rows
strip_empty_children empty = no_rows
strip_empty_children (node n kids rest) =
    let inner = strip_empty_children kids in
    let others = strip_empty_children rest in
    if has_nodes kids then branch n inner others else leaf n others

abbrev pub description_text : Option Text → Text
description_text none = []
description_text (some d) = d

-- The ids of the nodes that have children, a node before its descendants.
unfoldable pub collect_expandable_ids : Forest → List Text
collect_expandable_ids empty = []
collect_expandable_ids (node n kids rest) =
    let inner = collect_expandable_ids kids in
    let others = collect_expandable_ids rest in
    if has_nodes kids then n.id ∷ (inner ++ others) else others

module _ (lower : Text → Text) where
  -- `selfMatches`
  unfoldable pub matches : Text → NodeInfo → Bool
  matches term n =
      contains (lower n.cidr) (lower term)
      || contains (lower n.name) (lower term)
      || contains (lower (description_text n.description)) (lower term)

  unfoldable pub filter_tree : Forest → Text → Forest
  unfolding matches
  filter_tree empty term = empty
  filter_tree (node n kids rest) term =
      let kept = filter_tree kids term in
      let others = filter_tree rest term in
      if matches term n || has_nodes kept then node n kept others else others

  abbrev pub is_searching : Text → Bool
  is_searching search_text = not (is_empty (trim search_text))

  unfoldable pub filtered_tree : Forest → Text → Forest
  unfolding filter_tree
  filtered_tree tree search_text =
      if is_searching search_text then filter_tree tree (trim search_text) else tree

  unfoldable pub display_tree : Forest → Text → Rows
  unfolding filtered_tree strip_empty_children
  display_tree tree search_text = strip_empty_children (filtered_tree tree search_text)

  unfoldable pub expanded_row_keys : Forest → Text → List Text → List Text
  unfolding filtered_tree collect_expandable_ids
  expanded_row_keys tree search_text manual_expanded_keys =
      if is_searching search_text
      then collect_expandable_ids (filtered_tree tree search_text)
      else manual_expanded_keys
