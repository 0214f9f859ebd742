-- ===== src/SubnetTree/Scan/Tests.antt =====
-- Tests and witnesses for the scan of one subnet.
use iop.Base.{
  nat_eq, includes, ◌≤◌, ◌≡◌, ◌&&◌, refl, true, List, [], ◌∷◌, none, some, text, if◌then◌else◌,
}
use iop.CheckModal.{is_current}
use iop.CheckModal.Superseded.{is_live}
use iop.Types.PaloAlto.{PaloAltoCheckResult}
use iop.PaloAlto.Bulk.{result_event}
use iop.SubnetTree.Scan.{
  ScanEvent, scan_clicked, scan_heard, scan_ended, scan_hears, on_scan_call, on_scan, run_scan,
  initial_subnet_scan,
}
use iop.SubnetTree.Scan.Counted.{is_scanning, shown_end, run_scan-latest}

abbrev in_use : PaloAltoCheckResult
in_use = record {
  ip_address = text "10.0.0.1";
  found = true;
  hostname = none;
  matches = [];
  nat_matches = [];
  security_matches = [];
  security_matches_total = 0;
  log = [];
  errors = [];
}

-- The second scan supersedes the first.
abbrev scan_events : List ScanEvent
scan_events =
    scan_clicked (text "a") (text "10.0.0.0/24")
    ∷ scan_heard 0 (result_event in_use)
    ∷ scan_clicked (text "b") (text "10.0.1.0/30")
    ∷ scan_heard 0 (result_event in_use)
    ∷ scan_heard 1 (result_event in_use)
    ∷ scan_ended 0 (some (text "AbortError"))
    ∷ []

one_done : (run_scan scan_events initial_subnet_scan).scan_modal.done ≡ 1
unfolding run_scan
one_done = refl

second_scanned : (run_scan scan_events initial_subnet_scan).scanning_subnet_id ≡ some (text "b")
unfolding run_scan
second_scanned = refl

-- Both scans are live, and the first was aborted.
abbrev overtaken : List ScanEvent
overtaken =
    scan_clicked (text "a") (text "10.0.0.0/24") ∷ scan_clicked (text "b") (text "10.0.1.0/24") ∷ []

run_scan-latest_example :
    let s = run_scan overtaken initial_subnet_scan in
    (is_scanning s.scanning_subnet_id ≡ is_live s.scan_abort s.live)
    × (s.scan_modal.found ≤ s.scan_modal.done)
    × (on_scan (scan_heard 0 (result_event in_use)) s ≡ (
        if is_current s.scan_abort 0 && scan_hears s 0
        then record s { scan_modal = on_scan_call (result_event in_use) s.scan_modal }
        else s))
    × (record (on_scan (scan_ended 0 (some (text "AbortError"))) s) {
      live = s.live;
      fetches = s.fetches;
    }
        ≡ (if is_current s.scan_abort 0 && includes s.live 0
            then shown_end (some (text "AbortError")) (includes s.aborted 0) s
            else s))
run_scan-latest_example =
    run_scan-latest overtaken 0 (result_event in_use) (some (text "AbortError"))
