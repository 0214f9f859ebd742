-- ===== src/SubnetTree/Scan.antt =====
-- `handleScanSubnet` of frontend/src/pages/Subnets/SubnetsPage.tsx: the scan of one subnet, which a
-- later scan supersedes. A run has the number of its AbortController; a stream that was aborted
-- gives nothing any more, and then rejects.
pub mod Counted
mod Tests
use iop.Base.{
  ℕ, suc, ◌+◌, Bool, true, false, not, ◌&&◌, List, [], ◌∷◌, ◌++◌, Option, none, some, Text, text,
  nat_eq, text_eq, ◌==◌, includes, filter, if◌then◌else◌,
}
use iop.Text.Search.{is_empty}
use iop.Text.Split.{split}
use iop.Types.PaloAlto.{PaloAltoScanSubnetResult}
use iop.CheckModal.{also_aborted, is_current}
use iop.PaloAlto.{host_count}
use iop.PaloAlto.Bulk.{CheckEvent, log_event, result_event, summary_event, error_event}

pub record ScanModal : Type 0 where
  pub shown : Bool
  pub cidr : Text
  pub log : List Text
  pub done : ℕ
  pub total : ℕ
  pub found : ℕ
  pub summary : Option PaloAltoScanSubnetResult
  pub error : Option Text

-- The state of the page that belongs to the scan, with the calls of `fetchTree`.
pub record SubnetScan : Type 0 where
  pub scanning_subnet_id : Option Text
  pub scan_modal : ScanModal
  pub scan_abort : Option ℕ
  pub next_controller : ℕ
  pub live : List ℕ
  pub aborted : List ℕ
  pub fetches : ℕ

abbrev pub opened_modal : Text → ScanModal
opened_modal cidr = record {
  shown = true;
  cidr = cidr;
  log = [];
  done = 0;
  total = host_count (split b'/' cidr);
  found = 0;
  summary = none;
  error = none;
}

-- `handleScanSubnet` up to its request, for a subnet with the given id and network.
unfoldable pub start_subnet_scan : Text → Text → SubnetScan → SubnetScan
start_subnet_scan id cidr s = record s {
  aborted = also_aborted s.scan_abort s.aborted;
  scan_abort = some s.next_controller;
  next_controller = suc s.next_controller;
  live = s.next_controller ∷ s.live;
  scanning_subnet_id = some id;
  scan_modal = opened_modal cidr;
}

-- `onLog`, `onResult`, `onSummary` and `onError`.
unfoldable pub on_scan_call : CheckEvent → ScanModal → ScanModal
on_scan_call (log_event ip line) m = record m {
  log = m.log ++ (text "[" ++ ip ++ text "] " ++ line) ∷ [];
}
on_scan_call (result_event r) m = record m {
  done = m.done + 1;
  found = m.found + (if r.found then 1 else 0);
}
on_scan_call (summary_event r) m = record m { summary = some r }
on_scan_call (error_event message) m = record m { error = some message }

-- What the end of a stream does to the modal: an aborted run leaves it.
abbrev pub scan_caught : Option Text → Bool → ScanModal → ScanModal
scan_caught none was_aborted m = m
scan_caught (some message) true m = m
scan_caught (some message) false m = record m {
  error = some (if is_empty message then text "PaloAlto scan failed" else message);
}

abbrev pub fetched : Option Text → ℕ → ℕ
fetched none n = n + 1
fetched (some message) n = n

-- `handleScanSubnet` after its stream has ended, with the error that it threw.
unfoldable pub end_subnet_scan : ℕ → Option Text → SubnetScan → SubnetScan
end_subnet_scan k thrown s = record s {
  scan_modal = scan_caught thrown (includes s.aborted k) s.scan_modal;
  fetches = fetched thrown s.fetches;
  scanning_subnet_id = if is_current s.scan_abort k then none else s.scanning_subnet_id;
  live = filter (λ j. not (j == k)) s.live;
}

pub data ScanEvent : Type 0 where
  scan_clicked : Text → Text → ScanEvent
  scan_heard : ℕ → CheckEvent → ScanEvent
  scan_ended : ℕ → Option Text → ScanEvent
  scan_closed : ScanEvent

abbrev pub scan_hears : SubnetScan → ℕ → Bool
scan_hears s k = includes s.live k && not (includes s.aborted k)

unfoldable pub on_scan : ScanEvent → SubnetScan → SubnetScan
unfolding start_subnet_scan on_scan_call end_subnet_scan
on_scan (scan_clicked id cidr) s = start_subnet_scan id cidr s
on_scan (scan_heard k e) s =
    let heard = record s { scan_modal = on_scan_call e s.scan_modal } in
    if scan_hears s k then heard else s
on_scan (scan_ended k thrown) s = if includes s.live k then end_subnet_scan k thrown s else s
on_scan scan_closed s = record s { scan_modal = record s.scan_modal { shown = false } }

unfoldable pub run_scan : List ScanEvent → SubnetScan → SubnetScan
unfolding on_scan
run_scan [] s = s
run_scan (e ∷ es) s = run_scan es (on_scan e s)

abbrev pub initial_subnet_scan : SubnetScan
initial_subnet_scan = record {
  scanning_subnet_id = none;
  scan_modal = record {
    shown = false;
    cidr = [];
    log = [];
    done = 0;
    total = 0;
    found = 0;
    summary = none;
    error = none;
  };
  scan_abort = none;
  next_controller = 0;
  live = [];
  aborted = [];
  fetches = 0;
}
