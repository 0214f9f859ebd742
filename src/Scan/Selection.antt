-- ===== src/Scan/Selection.antt =====
-- The handlers of frontend/src/pages/NetworkScan/NetworkScanPage.tsx that edit the rows of a review
-- and the keys that are selected: `updateRow`, `assignSubnetToRow`, `suggestCidr`,
-- `handleSubnetCreated`, `toggleGroupSelection`, the table's `onChange`, `importableCount`.
use iop.Base.{
  ℕ, ◌≡◌, ◌∙◌, Bool, true, false, not, ◌&&◌, ◌||◌, List, [], ◌∷◌, ◌++◌, map, none, some, Text, text,
  if◌then◌else◌, filter, dedup, includes, text_eq, ◌==◌, length, find, get_elem?, includes-dedup,
  includes-append, includes-filter,
}
use iop.Types.Subnet.{SubnetDetail}
use iop.Text.Split.{split}
use iop.Scan.Page.{Page, ScanRow, closed_modal, key_of, is_matched, or_text}

pub data RowField : Type 0 where
  hostname os_type : RowField

abbrev pub set_field : RowField → Text → ScanRow → ScanRow
set_field hostname v r = record r { hostname = v }
set_field os_type v r = record r { os_type = v }

-- `prev.map((r) => r.ip_address === ip ? … : r)`
abbrev pub at_ip : Text → (ScanRow → ScanRow) → ScanRow → ScanRow
at_ip ip f r = if r.ip_address == ip then f r else r

unfoldable pub update_row : Text → RowField → Text → Page → Page
update_row ip field value p = record p { rows = map (at_ip ip (set_field field value)) p.rows }

-- `[...new Set([...prev, ...keys])]`
abbrev pub add_keys : List Text → List Text → List Text
add_keys prev keys = dedup (prev ++ keys)

-- `prev.filter((k) => !keys.includes(k))`
abbrev pub drop_keys : List Text → List Text → List Text
drop_keys prev keys = filter (λ k. not (includes keys k)) prev

abbrev pub assign : Text → Text → ScanRow → ScanRow
assign subnet_id subnet_cidr r = record r {
  subnet_id = some subnet_id;
  subnet_cidr = some subnet_cidr;
}

unfoldable pub assign_subnet_to_row : Text → Text → Text → Page → Page
assign_subnet_to_row ip subnet_id subnet_cidr p = record p {
  rows = map (at_ip ip (assign subnet_id subnet_cidr)) p.rows;
  selected_keys = add_keys p.selected_keys (ip ∷ []);
}

-- A part that is missing is printed as `undefined`.
unfoldable pub suggest_cidr : Text → Text
suggest_cidr ip =
    let parts : List Text = split b'.' ip in
    let part : ℕ → Text = (λ i. or_text (get_elem? parts i) (text "undefined")) in
    part 0 ++ b'.' ∷ (part 1 ++ b'.' ∷ (part 2 ++ text ".0/24"))

-- The button of an unmatched row.
unfoldable pub open_create_modal : Text → Page → Page
unfolding suggest_cidr
open_create_modal ip p = record p {
  create_modal = record { is_open = true; for_ip = ip; suggested_cidr = suggest_cidr ip };
}

unfoldable pub handle_subnet_created : SubnetDetail → Page → Page
unfolding assign_subnet_to_row
handle_subnet_created subnet p =
    let listed : Page = record p { subnets = p.subnets ++ subnet ∷ [] } in
    let assigned : Page = assign_subnet_to_row p.create_modal.for_ip subnet.id subnet.cidr listed in
    record assigned { create_modal = closed_modal }

unfoldable pub toggle_group_selection : List ScanRow → Bool → Page → Page
toggle_group_selection group_rows all_selected p =
    let keys : List Text = map key_of group_rows in
    record p {
      selected_keys =
          if all_selected then drop_keys p.selected_keys keys else add_keys p.selected_keys keys;
    }

-- `onChange` of a group's table, which hands on the keys selected in it.
unfoldable pub change_group_selection : List ScanRow → List Text → Page → Page
change_group_selection group_rows keys p = record p {
  selected_keys = drop_keys p.selected_keys (map key_of group_rows) ++ keys;
}

abbrev pub has_matched_row : List ScanRow → Text → Bool
has_matched_row rows k = elim (find (λ r. r.key == k && is_matched r) rows) [
  | none ↦ false
  | some _ ↦ true
]

unfoldable pub importable_count : Page → ℕ
importable_count p = length (filter (has_matched_row p.rows) p.selected_keys)

-- Toggling a group selects exactly its keys in addition, or takes exactly its keys away; what was
-- selected elsewhere stays.
pub includes-toggle_group_selection :
    (group_rows : List ScanRow) (all_selected : Bool) (p : Page) (k : Text)
    → includes (toggle_group_selection group_rows all_selected p).selected_keys k ≡ (
        if all_selected
        then includes p.selected_keys k && not (includes (map key_of group_rows) k)
        else includes p.selected_keys k || includes (map key_of group_rows) k)
unfolding toggle_group_selection
includes-toggle_group_selection group_rows true p k =
    includes-filter (λ k. not (includes (map key_of group_rows) k)) p.selected_keys k
includes-toggle_group_selection group_rows false p k =
    includes-dedup (p.selected_keys ++ map key_of group_rows) k
    ∙ includes-append p.selected_keys (map key_of group_rows) k
