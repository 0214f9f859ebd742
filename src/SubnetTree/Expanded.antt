-- ===== src/SubnetTree/Expanded.antt =====
-- What the table shows of the tree.
use iop.Base.{
  ◌≢◌, ◌≡◌, refl, ap, ap₂, ◌∙◌, Bool, true, false, List, [], ◌∷◌, ◌++◌, arith, Text, if◌then◌else◌,
  includes, text_eq, eq_self, All, All-mono,
}
use iop.Text.Trim.{trim}
use iop.SubnetTree.{
  NodeInfo, Forest, empty, node, Rows, no_rows, leaf, branch, strip_empty_children,
  collect_expandable_ids, filter_tree, is_searching, filtered_tree, expanded_row_keys,
}
use iop.SubnetTree.Pruned.{infos}

-- The nodes that a table shows with the rows of these ids expanded.
unfoldable pub shown : List Text → Forest → List NodeInfo
shown keys empty = []
shown keys (node n kids rest) =
    let inner = shown keys kids in
    n ∷ ((if includes keys n.id then inner else []) ++ shown keys rest)

Expands : List Text → List Text → Type 0
Expands keys = All (λ k. includes keys k ≡ true)

Expands-append :
    (keys xs ys : List Text) → Expands keys (xs ++ ys) → Expands keys xs × Expands keys ys
unfolding Expands
Expands-append keys [] ys h = (tt, h)
Expands-append keys (x ∷ xs) ys (hx, h) =
    let (left, right) = Expands-append keys xs ys h in ((hx, left), right)

shown-Expands :
    (keys : List Text) (f : Forest)
    → Expands keys (collect_expandable_ids f)
    → shown keys f ≡ infos f
unfolding shown infos collect_expandable_ids Expands
shown-Expands keys empty h = refl
shown-Expands keys (node n empty rest) h =
    ap (λ r. n ∷ r)
      (ap₂ (λ xs ys. xs ++ ys) (nothing_below (includes keys n.id)) (shown-Expands keys rest h))
  where
    nothing_below : (b : Bool) → (if◌then◌else◌ {A = List NodeInfo} b [] []) ≡ []
    nothing_below true = refl
    nothing_below false = refl
shown-Expands keys (node n (node m kids more) rest) (here, h) =
    let (inner, others) =
      Expands-append keys (collect_expandable_ids (node m kids more)) (collect_expandable_ids rest)
        h in
    ap (λ r. n ∷ r)
      (ap₂ (λ xs ys. xs ++ ys)
        (ap (λ (b : Bool). if b then shown keys (node m kids more) else []) here
          ∙ shown-Expands keys (node m kids more) inner)
        (shown-Expands keys rest others))

Expands-self : (keys : List Text) → Expands keys keys
unfolding Expands
Expands-self [] = tt
Expands-self (k ∷ ks) = (
  ground (arith, eq_self k),
  All-mono (λ x. includes ks x ≡ true) (λ x. includes (k ∷ ks) x ≡ true) (λ x h. ground arith) ks
      (Expands-self ks),
)

-- While a search is typed, the table shows every node that the filter keeps: each one above
-- another is expanded.
pub shown-expanded_row_keys :
    (lower : Text → Text) (tree : Forest) (search_text : Text) (manual_expanded_keys : List Text)
    → is_searching lower search_text ≡ true
    → shown
        (expanded_row_keys lower tree search_text manual_expanded_keys)
        (filtered_tree lower tree search_text)
      ≡ infos (filtered_tree lower tree search_text)
unfolding expanded_row_keys
shown-expanded_row_keys lower tree search_text manual_expanded_keys h =
    let kept = filter_tree lower tree (trim search_text) in
    rw h (
      shown-Expands (collect_expandable_ids kept) kept (Expands-self (collect_expandable_ids kept)))

-- The nodes of the table's rows, a row before those under it.
unfoldable pub row_infos : Rows → List NodeInfo
row_infos no_rows = []
row_infos (leaf n rest) = n ∷ row_infos rest
row_infos (branch n kids rest) = n ∷ (row_infos kids ++ row_infos rest)

-- A row has children only if there are some.
abbrev pub NoEmptyBranch : Rows → Type 0
NoEmptyBranch no_rows = Unit
NoEmptyBranch (leaf n rest) = NoEmptyBranch rest
NoEmptyBranch (branch n kids rest) = (kids ≢ no_rows) × NoEmptyBranch kids × NoEmptyBranch rest

-- Stripping keeps every node in its place, and leaves no row with an empty list of children.
pub strip_empty_children_lem :
    (f : Forest)
    → (row_infos (strip_empty_children f) ≡ infos f) × NoEmptyBranch (strip_empty_children f)
unfolding strip_empty_children row_infos infos
strip_empty_children_lem empty = (refl, tt)
strip_empty_children_lem (node n empty rest) =
    let (same, full) = strip_empty_children_lem rest in (ap (λ r. n ∷ r) same, full)
strip_empty_children_lem (node n (node m kids more) rest) =
    let (below, inner) = strip_empty_children_lem (node m kids more) in
    let (beside, others) = strip_empty_children_lem rest in
    (ap (λ r. n ∷ r) (ap₂ (λ xs ys. xs ++ ys) below beside), (not_bare m kids more, inner, others))
  where
    not_bare :
        (m : NodeInfo) (kids more : Forest) → strip_empty_children (node m kids more) ≢ no_rows
    not_bare m empty more = λ e. cc e
    not_bare m (node k x y) more = λ e. cc e
