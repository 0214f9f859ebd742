-- ===== src/Scan/Groups.antt =====
-- `groups` of frontend/src/pages/NetworkScan/NetworkScanPage.tsx: the rows of a review by subnet.
-- `localeCompare` is the section's parameter `before`.
pub mod Partition
pub mod Shape
use iop.Base.{
  ℕ, ◌+◌, ◌≡◌, refl, ap, ◌∙◌, ◌⊎◌, inl, inr, Bool, true, false, List, [], ◌∷◌, ◌++◌, map, Option,
  none, some, arith, Text, if◌then◌else◌, filter, filter-append, find, text_eq, ◌==◌, length,
  length-append, All, All-append, Bool-cases, Option-cases,
}
use iop.Types.Subnet.{SubnetDetail}
use iop.Text.Search.{is_empty}
use iop.Scan.Page.{ScanRow, matched_cidr, or_text}

pub record SubnetGroup : Type 0 where
  pub subnet : Option SubnetDetail
  pub rows : List ScanRow

-- The `Map`, in the order in which its keys were set.
abbrev pub GroupMap : Type 0
GroupMap = List (Text × SubnetGroup)

-- `!row.subnet_id`: null, or the empty text.
abbrev pub is_unmatched : Option Text → Bool
is_unmatched none = true
is_unmatched (some id) = is_empty id

abbrev pub with_row : ScanRow → SubnetGroup → SubnetGroup
with_row r g = record g { rows = g.rows ++ r ∷ [] }

-- Appends the row to the group of its key, or sets a new group at the end.
unfoldable pub add_row : List SubnetDetail → Text → ScanRow → GroupMap → GroupMap
add_row subnets id r [] =
    (id, record { subnet = find (λ s. s.id == id) subnets; rows = r ∷ [] }) ∷ []
add_row subnets id r ((j, g) ∷ m) =
    if j == id then (j, with_row r g) ∷ m else (j, g) ∷ add_row subnets id r m

-- One round of the loop over the rows.
unfoldable pub collect_row :
    List SubnetDetail → Option Text → ScanRow → GroupMap × List ScanRow → GroupMap × List ScanRow
unfolding add_row
collect_row subnets none r (m, unmatched) = (m, unmatched ++ r ∷ [])
collect_row subnets (some id) r (m, unmatched) =
    if is_empty id then (m, unmatched ++ r ∷ []) else (add_row subnets id r m, unmatched)

unfoldable pub collect :
    List SubnetDetail → List ScanRow → GroupMap × List ScanRow → GroupMap × List ScanRow
unfolding collect_row
collect subnets [] acc = acc
collect subnets (r ∷ rs) acc = collect subnets rs (collect_row subnets r.subnet_id r acc)

abbrev pub group_cidr : SubnetGroup → Text
group_cidr g = or_text (matched_cidr g.subnet) []

abbrev pub values : GroupMap → List SubnetGroup
values [] = []
values ((j, g) ∷ m) = g ∷ values m

abbrev pub unmatched_group : List ScanRow → List SubnetGroup
unmatched_group [] = []
unmatched_group (r ∷ rs) = record { subnet = none; rows = r ∷ rs } ∷ []

-- All rows of the groups, in order.
unfoldable pub rows_of : List SubnetGroup → List ScanRow
rows_of [] = []
rows_of (g ∷ gs) = g.rows ++ rows_of gs

-- How many rows pass a test.
abbrev pub count_if : (ScanRow → Bool) → List ScanRow → ℕ
count_if q rs = length (filter q rs)

module _ (before : Text → Text → Bool) where
  -- `Array.prototype.sort` is stable: a group goes before the first that it is not behind.
  unfoldable pub insert_group : SubnetGroup → List SubnetGroup → List SubnetGroup
  insert_group g [] = g ∷ []
  insert_group g (h ∷ hs) =
      if before (group_cidr g) (group_cidr h) then g ∷ h ∷ hs else h ∷ insert_group g hs

  unfoldable pub sort_groups : List SubnetGroup → List SubnetGroup
  unfolding insert_group
  sort_groups [] = []
  sort_groups (g ∷ gs) = insert_group g (sort_groups gs)

  unfoldable pub groups : List SubnetDetail → List ScanRow → List SubnetGroup
  unfolding collect sort_groups
  groups subnets rows =
      let (m, unmatched) = collect subnets rows ([], []) in
      sort_groups (values m) ++ unmatched_group unmatched
