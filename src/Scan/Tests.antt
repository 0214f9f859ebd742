-- ===== src/Scan/Tests.antt =====
-- Tests and witnesses for the network scan page.
use iop.Base.{
  if◌then◌else◌, nat_beq, ℕ, ◌+◌, ◌≡◌, refl, inl, inr, Bool, true, false, not, List, [], ◌∷◌, map,
  Option, none, some, arith, Text, text, All, text_eq, dedup, length, filter,
}
use iop.Text.Split.{split, join, split_runs, IsFree, is_delimiter}
use iop.Text.Trim.{trim}
use iop.Text.Number.{parse_int}
use iop.Types.Record.{production}
use iop.Types.Subnet.{SubnetDetail}
use iop.Types.Scan.{standard, deep, ScanResult}
use iop.Types.Sample.{subnet_at}
use iop.Api.{resolved}
use iop.Address.{prefix_of, network_of, mask_of, is_ip_in_cidr, ip_to_int}
use iop.Scan.Lookup.{find_subnet_for_ip, find_subnet_for_ip-LongestMatch, LongestMatch}
use iop.Scan.Cidrs.{parse_cidrs, IsEntry, parse_cidrs-join}
use iop.Scan.Estimate.{estimate_hosts, needs_confirm, needs_confirm-unreadable}
use iop.Scan.Page.{Page, SaveMode, ScanRow, closed_modal, settle_scan, review_job, is_matched}
use iop.Scan.Import.{
  HostCreate, create_of, is_imported, no_rows, handle_import, handle_import-outcome, after_requests,
  created_count, finish_import,
}
use iop.Scan.Groups.{groups, rows_of, count_if}
use iop.Scan.Groups.Partition.{count_if-groups}
use iop.Scan.Groups.Shape.{IsGroup, groups-IsGroup}
use iop.Scan.Review.{IsRows, hosts_in, placed_ips, settle_scan-review}
use iop.Scan.Progress.{IsProgress, scan_clicked, timer_ticked, bar_reset, run, run-IsProgress}

abbrev wide : SubnetDetail
wide = subnet_at (text "w") (text "10.0.0.0/8")

abbrev narrow : SubnetDetail
narrow = subnet_at (text "n") (text "10.0.1.0/24")

finds_narrow : find_subnet_for_ip (text "10.0.1.7") (wide ∷ narrow ∷ []) ≡ some narrow
unfolding find_subnet_for_ip is_ip_in_cidr ip_to_int prefix_of network_of mask_of split parse_int
finds_narrow = refl

find_subnet_for_ip-LongestMatch_example :
    LongestMatch
      (text "10.0.1.7")
      (wide ∷ narrow ∷ [])
      (find_subnet_for_ip (text "10.0.1.7") (wide ∷ narrow ∷ []))
find_subnet_for_ip-LongestMatch_example =
    find_subnet_for_ip-LongestMatch (text "10.0.1.7") (wide ∷ narrow ∷ [])

abbrev typed : Text
typed = text " 10.0.0.0/24,, 10.0.1.0/24 ,10.0.0.0/24"

parses_typed : parse_cidrs typed ≡ text "10.0.0.0/24" ∷ text "10.0.1.0/24" ∷ []
unfolding parse_cidrs split_runs trim dedup
parses_typed = refl

IsEntry-a : IsEntry (text "10.0.0.0/8")
unfolding IsFree trim is_delimiter
IsEntry-a = record { filled = refl; trimmed = refl; free = ground arith }

IsEntry-b : IsEntry (text "fe80")
unfolding IsFree trim is_delimiter
IsEntry-b = record { filled = refl; trimmed = refl; free = ground arith }

parse_cidrs-join_example :
    parse_cidrs (join b',' (text "10.0.0.0/8" ∷ text "fe80" ∷ []))
    ≡ text "10.0.0.0/8" ∷ text "fe80" ∷ []
parse_cidrs-join_example =
    parse_cidrs-join (text "10.0.0.0/8" ∷ text "fe80" ∷ []) (IsEntry-a, (IsEntry-b, tt))
      (refl, (refl, tt))

prefix_missing : prefix_of (text "10.0.0.0") ≡ none
unfolding prefix_of split parse_int
prefix_missing = refl

-- A /8 and an address without a length: no confirmation, though the /8 alone takes days.
needs_confirm-unreadable_example :
    needs_confirm (text "10.0.0.0/8" ∷ text "10.0.0.0" ∷ []) deep ≡ false
needs_confirm-unreadable_example =
    needs_confirm-unreadable (text "10.0.0.0") (text "10.0.0.0/8" ∷ text "10.0.0.0" ∷ []) deep
      (inr (inl refl)) prefix_missing

confirms_wide : needs_confirm (text "10.0.0.0/8" ∷ []) deep ≡ true
unfolding needs_confirm prefix_of split parse_int
confirms_wide = refl

hosts_8 : estimate_hosts (text "10.0.0.0/8") ≡ some 16777214
unfolding estimate_hosts prefix_of split parse_int
hosts_8 = refl

hosts_24 : estimate_hosts (text "10.0.0.0/24") ≡ some 254
unfolding estimate_hosts prefix_of split parse_int
hosts_24 = refl

abbrev row_at : Text → Option Text → ScanRow
row_at ip subnet_id = record {
  key = ip;
  ip_address = ip;
  hostname = [];
  os_type = text "Linux";
  open_ports = 22 ∷ [];
  power_state = none;
  subnet_id = subnet_id;
  subnet_cidr = none;
}

abbrev sample_rows : List ScanRow
sample_rows =
    row_at (text "10.0.1.7") (some (text "n"))
    ∷ row_at (text "9.9.9.9") none
    ∷ row_at (text "10.0.2.1") (some (text "w"))
    ∷ row_at (text "10.0.1.8") (some (text "n"))
    ∷ []

abbrev page : Page
page = record {
  subnets = wide ∷ narrow ∷ [];
  cidrs_text = typed;
  mode = standard;
  save_mode = SaveMode.review;
  scanning = false;
  progress = 0;
  timer = none;
  rows = sample_rows;
  scan_info = none;
  selected_keys = text "10.0.1.7" ∷ text "9.9.9.9" ∷ text "10.0.1.8" ∷ [];
  import_env = some production;
  import_owner = [];
  importing = false;
  save_inactive = false;
  overwrite_status = false;
  auto_result = none;
  create_modal = closed_modal;
  notices = [];
}

-- A server that takes every second record.
abbrev every_second : HostCreate → Bool → Bool × Bool
every_second c b = (b, not b)

abbrev chosen : List ScanRow
chosen = filter (is_imported page.selected_keys) page.rows

chosen_rows : no_rows chosen ≡ false
chosen_rows = refl

handle_import-outcome_example :
    let requests : List HostCreate = map (create_of production []) chosen in
    let done = handle_import every_second page true in
    (failed : ℕ) × (done.1 ≡ after_requests every_second requests true)
    × (created_count every_second requests true + failed ≡ length chosen)
    × (done.0
        ≡ finish_import
            (created_count every_second requests true)
            failed
            (record page { importing = true }))
    × (done.0.rows ≡ (if nat_beq failed 0 then [] else page.rows))
    × (done.0.selected_keys ≡ (if nat_beq failed 0 then [] else page.selected_keys))
    × (done.0.importing ≡ false)
handle_import-outcome_example =
    handle_import-outcome every_second page production true refl chosen_rows

abbrev never_before : Text → Text → Bool
never_before a b = false

count_if-groups_example :
    count_if is_matched (rows_of (groups never_before (wide ∷ narrow ∷ []) sample_rows))
    ≡ count_if is_matched sample_rows
count_if-groups_example = count_if-groups never_before (wide ∷ narrow ∷ []) sample_rows is_matched

groups-IsGroup_example :
    All
      (IsGroup (wide ∷ narrow ∷ []) sample_rows)
      (groups never_before (wide ∷ narrow ∷ []) sample_rows)
groups-IsGroup_example = groups-IsGroup (wide ∷ narrow ∷ []) never_before sample_rows

abbrev answer : ScanResult
answer = record {
  cidr = text "10.0.1.0/24";
  mode = text "standard";
  total_scanned = 254;
  discovered =
      record {
        ip_address = text "10.0.1.7";
        hostname = some (text "web");
        os_hint = none;
        open_ports = [];
        power_state = none;
      }
      ∷ record {
        ip_address = text "9.9.9.9";
        hostname = none;
        os_hint = none;
        open_ports = [];
        power_state = none;
      }
      ∷ [];
  duration_seconds = 31;
}

settle_scan-review_example :
    let p' : Page =
      settle_scan
        (review_job (text "10.0.1.0/24" ∷ []) standard (wide ∷ []))
        (resolved (answer ∷ []))
        page in
    IsRows (wide ∷ []) (hosts_in (answer ∷ [])) p'.rows
    × (p'.selected_keys ≡ placed_ips p'.rows)
    × (p'.scanning ≡ false)
    × (p'.timer ≡ none)
settle_scan-review_example =
    settle_scan-review (text "10.0.1.0/24" ∷ []) standard (wide ∷ []) (answer ∷ []) page

run-IsProgress_example :
    IsProgress (run (scan_clicked ∷ timer_ticked 200 ∷ timer_ticked 9000 ∷ bar_reset ∷ []) page)
run-IsProgress_example =
    run-IsProgress (scan_clicked ∷ timer_ticked 200 ∷ timer_ticked 9000 ∷ bar_reset ∷ []) page
      (record { shown = omega arith; running = tt })
