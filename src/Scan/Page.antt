-- ===== src/Scan/Page.antt =====
-- The state of the page of frontend/src/pages/NetworkScan/NetworkScanPage.tsx, and its handlers but
-- for the import. A handler that waits for the server is a start, which runs up to the `await` and
-- hands on what its closure holds, and a settlement, which takes the server's answer.
use Prim.Native.Nat.{min}
use iop.Base.{
  ℕ, ◌+◌, ◌/◌, Bool, true, false, List, [], ◌∷◌, ◌++◌, map, Option, none, some, Text, text,
  if◌then◌else◌, filter, text_eq, length,
}
use iop.Types.Record.{Environment, PowerState}
use iop.Types.Subnet.{SubnetDetail}
use iop.Types.Scan.{ScanMode, ScanResult, DiscoveredHost, DiscoverScanRequest, DiscoverScanResult}
use iop.Api.{ApiError, Response, resolved, rejected, error_text}
use iop.Scan.Lookup.{find_subnet_for_ip}
use iop.Scan.Cidrs.{parse_cidrs}

pub data SaveMode : Type 0 where
  review auto : SaveMode

-- The server's word for the system is taken as it comes (`as OSType`), so it is any text.
pub record ScanRow : Type 0 where
  pub key : Text
  pub ip_address : Text
  pub hostname : Text
  pub os_type : Text
  pub open_ports : List ℕ
  pub power_state : Option PowerState
  pub subnet_id : Option Text
  pub subnet_cidr : Option Text

pub record ReviewScanInfo : Type 0 where
  pub cidrs : List Text
  pub mode : ScanMode
  pub total : ℕ
  pub found : ℕ
  pub duration : ℕ

pub record CreateModal : Type 0 where
  pub is_open : Bool
  pub for_ip : Text
  pub suggested_cidr : Text

-- The toasts of `message.…`.
pub data Notice : Type 0 where
  no_cidrs no_environment no_hosts : Notice
  scan_complete : ℕ → ℕ → ℕ → Notice
  scan_failed : Text → Notice
  imported : ℕ → Notice
  partly_imported : ℕ → ℕ → Notice

-- `timer` holds the value `current` of the running progress timer, in hundredths.
pub record Page : Type 0 where
  pub subnets : List SubnetDetail
  pub cidrs_text : Text
  pub mode : ScanMode
  pub save_mode : SaveMode
  pub scanning : Bool
  pub progress : ℕ
  pub timer : Option ℕ
  pub rows : List ScanRow
  pub scan_info : Option ReviewScanInfo
  pub selected_keys : List Text
  pub import_env : Option Environment
  pub import_owner : Text
  pub importing : Bool
  pub save_inactive : Bool
  pub overwrite_status : Bool
  pub auto_result : Option DiscoverScanResult
  pub create_modal : CreateModal
  pub notices : List Notice

abbrev pub closed_modal : CreateModal
closed_modal = record { is_open = false; for_ip = []; suggested_cidr = [] }

unfoldable pub clear_results : Page → Page
clear_results p = record p { rows = []; scan_info = none; selected_keys = []; auto_result = none }

abbrev pub notify : Notice → Page → Page
notify n p = record p { notices = n ∷ p.notices }

-- The requests that a scan sends, and what its settlement reads from the closure.
pub data Job : Type 0 where
  review_job : List Text → ScanMode → List SubnetDetail → Job
  auto_job : DiscoverScanRequest → Job

abbrev pub job_of : Page → List Text → Job
job_of p cidrs = elim (p.save_mode) [
  | review ↦ review_job cidrs p.mode p.subnets
  | auto ↦ auto_job (record {
    cidrs = cidrs;
    mode = p.mode;
    save_inactive = p.save_inactive;
    overwrite_status = p.overwrite_status;
  })
]

abbrev pub started : Page → Page
started p = record (clear_results (record p { scanning = true })) { progress = 0; timer = some 0 }

abbrev pub is_none : List Text → Bool
is_none [] = true
is_none (c ∷ cs) = false

-- `handleScan` up to its first `await`; no job where there is nothing to scan.
unfoldable pub start_scan : Page → Page × Option Job
unfolding clear_results
start_scan p =
    let cidrs : List Text = parse_cidrs p.cidrs_text in
    if is_none cidrs then (notify no_cidrs p, none) else (started p, some (job_of p cidrs))

-- One tick of `startProgressTimer`, with the draw `Math.random() * 2` in hundredths.
unfoldable pub advance : Option ℕ → ℕ → Page → Page
advance none draw p = p
advance (some current) draw p =
    let next : ℕ = min 9300 (current + 220 + draw) in
    record p { timer = some next; progress = (next + 50) / 100 }

unfoldable pub tick_progress : ℕ → Page → Page
unfolding advance
tick_progress draw p = advance p.timer draw p

-- The time-out that `finally` sets.
abbrev pub reset_progress : Page → Page
reset_progress p = record p { progress = 0 }

abbrev pub or_text : Option Text → Text → Text
or_text none d = d
or_text (some t) d = t

abbrev pub matched_id : Option SubnetDetail → Option Text
matched_id none = none
matched_id (some s) = some s.id

abbrev pub matched_cidr : Option SubnetDetail → Option Text
matched_cidr none = none
matched_cidr (some s) = some s.cidr

-- The callback of `allHosts.map`.
unfoldable pub row_of : List SubnetDetail → DiscoveredHost → ScanRow
row_of subnets host =
    let matched : Option SubnetDetail = find_subnet_for_ip host.ip_address subnets in
    record {
      key = host.ip_address;
      ip_address = host.ip_address;
      hostname = or_text host.hostname [];
      os_type = or_text host.os_hint (text "Unknown");
      open_ports = host.open_ports;
      power_state = host.power_state;
      subnet_id = matched_id matched;
      subnet_cidr = matched_cidr matched;
    }

abbrev pub is_matched : ScanRow → Bool
is_matched r = elim (r.subnet_id) [ none ↦ false | some _ ↦ true ]

abbrev pub key_of : ScanRow → Text
key_of r = r.key

-- `totalScanned`, `totalDuration` and `allHosts` over the responses.
unfoldable pub total_scanned : List ScanResult → ℕ
total_scanned [] = 0
total_scanned (r ∷ rs) = r.total_scanned + total_scanned rs

unfoldable pub total_duration : List ScanResult → ℕ
total_duration [] = 0
total_duration (r ∷ rs) = r.duration_seconds + total_duration rs

unfoldable pub all_hosts : List ScanResult → List DiscoveredHost
all_hosts [] = []
all_hosts (r ∷ rs) = r.discovered ++ all_hosts rs

-- The body of `finally`.
abbrev pub settled : Page → Page
settled p = record p { timer = none; progress = 100; scanning = false }

unfoldable pub show_review :
    List Text → ScanMode → List SubnetDetail → List ScanResult → Page → Page
unfolding row_of total_scanned total_duration all_hosts
show_review cidrs mode subnets responses p =
    let hosts : List DiscoveredHost = all_hosts responses in
    let mapped : List ScanRow = map (row_of subnets) hosts in
    record p {
      rows = mapped;
      selected_keys = map key_of (filter is_matched mapped);
      scan_info = some (record {
        cidrs = cidrs;
        mode = mode;
        total = total_scanned responses;
        found = length hosts;
        duration = total_duration responses;
      });
    }

-- The server's answer to a job: the scans of a review all resolve, or the first rejection counts.
abbrev pub Answer : Job → Type 0
Answer (review_job cidrs mode subnets) = Response (List ScanResult)
Answer (auto_job request) = Response DiscoverScanResult

abbrev pub scan_error : ApiError → Page → Page
scan_error e p = notify (scan_failed (error_text e (text "Scan failed"))) p

-- `handleScan` from its `await` on.
unfoldable pub settle_scan : (job : Job) → Answer job → Page → Page
unfolding show_review
settle_scan (review_job cidrs mode subnets) (resolved rs) p =
    settled (show_review cidrs mode subnets rs p)
settle_scan (review_job cidrs mode subnets) (rejected e) p = settled (scan_error e p)
settle_scan (auto_job request) (resolved r) p =
    settled
      (notify (scan_complete r.created r.updated r.skipped) (record p { auto_result = some r }))
settle_scan (auto_job request) (rejected e) p = settled (scan_error e p)
