-- ===== src/SubnetTree/Tests.antt =====
-- Tests and witnesses for the subnet tree. `toLowerCase` is the identity on the samples.
use iop.Base.{◌≡◌, refl, true, false, [], ◌∷◌, none, some, Text, text, filter}
use iop.Types.Record.{production}
use iop.Types.Sample.{subnet_at}
use iop.Text.Search.{contains}
use iop.Text.Trim.{trim}
use iop.SubnetTree.{
  is_searching, NodeInfo, Forest, empty, node, filter_tree, matches, filtered_tree,
  expanded_row_keys,
}
use iop.SubnetTree.Pruned.{Pruned, LeavesMatch, infos, filter_tree_lem}
use iop.SubnetTree.Expanded.{shown, shown-expanded_row_keys}
use iop.SubnetTree.Requests.{
  SubnetsState, blank, open_edit, start_submit, start_submit-open_edit, update,
}

abbrev same_case : Text → Text
same_case t = t

abbrev node_at : Text → Text → NodeInfo
node_at id cidr = record { detail = subnet_at id cidr; key = id; utilization_pct = 10 }

abbrev sample : Forest
sample =
    node (node_at (text "a") (text "10.0.0.0/8"))
      (node (node_at (text "b") (text "10.1.0.0/16")) empty
        (node (node_at (text "c") (text "10.2.0.0/16")) empty empty))
      (node (node_at (text "d") (text "192.168.0.0/16")) empty empty)

keeps_parent :
    infos (filter_tree same_case sample (text "10.2"))
    ≡ node_at (text "a") (text "10.0.0.0/8") ∷ node_at (text "c") (text "10.2.0.0/16") ∷ []
unfolding filter_tree matches infos contains
keeps_parent = refl

filter_tree_lem_example :
    Pruned (filter_tree same_case sample (text "10.2")) sample
    × (filter (matches same_case (text "10.2")) (infos (filter_tree same_case sample (text "10.2")))
        ≡ filter (matches same_case (text "10.2")) (infos sample))
    × LeavesMatch (matches same_case (text "10.2")) (filter_tree same_case sample (text "10.2"))
filter_tree_lem_example = filter_tree_lem same_case (text "10.2") sample

typed_search : is_searching same_case (text " 10.2") ≡ true
unfolding trim
typed_search = refl

shown-expanded_row_keys_example :
    shown
      (expanded_row_keys same_case sample (text " 10.2") [])
      (filtered_tree same_case sample (text " 10.2"))
    ≡ infos (filtered_tree same_case sample (text " 10.2"))
shown-expanded_row_keys_example =
    shown-expanded_row_keys same_case sample (text " 10.2") [] typed_search

abbrev page : SubnetsState
page = record {
  tree = sample;
  loading = false;
  filter_vrf = none;
  filter_env = none;
  modal_open = false;
  editing_subnet = none;
  submitting = false;
  form = blank;
  notices = [];
}

start_submit-open_edit_example :
    (start_submit (open_edit (node_at (text "a") (text "10.0.0.0/8")) page)).1
    ≡ some (
        update (text "a") (record {
          name = some (text "net");
          description = none;
          gateway = none;
          vlan_id = none;
          environment = some production;
          vrf_id = none;
          alert_threshold = none;
        }))
start_submit-open_edit_example =
    start_submit-open_edit (node_at (text "a") (text "10.0.0.0/8")) page
