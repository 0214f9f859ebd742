-- ===== src/BulkScan.antt =====
-- The bulk availability scan: frontend/src/components/common/BulkCheckAvailabilityModal.tsx over
-- `bulkCheckAvailabilityStream` of frontend/src/api/ipRecords.ts.
pub mod Events
pub mod Counted
pub mod Opened
mod Tests
use iop.Base.{
  ℕ, ◌+◌, ◌*◌, ◌/◌, Bool, true, false, not, ◌&&◌, List, [], ◌∷◌, ◌++◌, Option, none, some, Text,
  text, length, ltb, leb, suc, if◌then◌else◌,
}
use iop.Text.Number.{decimal}
use iop.Text.Search.{is_empty}
use iop.Text.Split.{join}

pub data Source : Type 0 where
  device42 zabbix paloalto vsphere : Source

pub data CheckStatus : Type 0 where
  checking done error : CheckStatus

pub record CheckAvailabilityProgressEvent : Type 0 where
  pub source : Source
  pub status : CheckStatus
  pub found : Bool
  pub name : Option Text
  pub message : Option Text

pub record CheckAvailabilityResult : Type 0 where
  pub ip_address : Text
  pub found : Bool
  pub status_updated : Bool
  pub new_status : Text
  pub hostname : Option Text
  pub os_type : Option Text
  pub vsphere_power_state : Option Text

pub record BulkScanRecordStart : Type 0 where
  pub index : ℕ
  pub total : ℕ
  pub id : Text
  pub ip_address : Text

pub record BulkScanRecordError : Type 0 where
  pub index : ℕ
  pub total : ℕ
  pub id : Text
  pub message : Text

pub record BulkScanSummary : Type 0 where
  pub total : ℕ
  pub scanned : ℕ
  pub found : ℕ
  pub updated : ℕ
  pub errors : List Text

-- The state of the modal, with the calls of `onUpdated`.
pub record BulkScan : Type 0 where
  pub log : List Text
  pub done : ℕ
  pub total : ℕ
  pub current_ip : Option Text
  pub summary : Option BulkScanSummary
  pub error_msg : Option Text
  pub started : Bool
  pub updates : ℕ

abbrev pub initial_scan : BulkScan
initial_scan = record {
  log = [];
  done = 0;
  total = 0;
  current_ip = none;
  summary = none;
  error_msg = none;
  started = false;
  updates = 0;
}

-- `ids.length > CONFIRM_THRESHOLD`
unfoldable pub needs_confirm : List Text → Bool
needs_confirm ids = ltb 20 (length ids)

-- `Math.max(1, Math.round(ids.length * SECONDS_PER_RECORD / 60))`
unfoldable pub est_minutes : List Text → ℕ
est_minutes ids = let rounded = (length ids * 4 + 30) / 60 in if leb 1 rounded then rounded else 1

-- `run` up to its request.
unfoldable pub start_run : List Text → BulkScan → BulkScan
start_run ids s = record s {
  log = [];
  done = 0;
  total = length ids;
  current_ip = none;
  summary = none;
  error_msg = none;
}

abbrev pub append_log : Text → BulkScan → BulkScan
append_log line s = record s { log = s.log ++ line ∷ [] }

-- `onRecordStart`
unfoldable pub on_record_start : BulkScanRecordStart → BulkScan → BulkScan
on_record_start e s =
    append_log
      (text "— Scanning "
        ++ e.ip_address
        ++ text " ("
        ++ decimal (e.index + 1)
        ++ text "/"
        ++ decimal e.total
        ++ text ")…")
      (record s { current_ip = some e.ip_address })

abbrev pub label_of : Source → Text
label_of vsphere = text "vSphere"
label_of device42 = text "Device42"
label_of zabbix = text "Zabbix"
label_of paloalto = text "Paloalto"

abbrev pub or_else : Option Text → Text → Text
or_else none fallback = fallback
or_else (some t) fallback = t

abbrev pub progress_text : CheckStatus → CheckAvailabilityProgressEvent → Text
progress_text checking e = text "checking…"
progress_text done e =
    if e.found then text "found — " ++ or_else e.name (text "match") else text "not found"
progress_text error e = text "error: " ++ or_else e.message (text "unknown")

-- `onProgress`
unfoldable pub on_progress : CheckAvailabilityProgressEvent → BulkScan → BulkScan
on_progress e s =
    append_log (text "  [" ++ label_of e.source ++ text "] " ++ progress_text e.status e) s

-- `if (value) changes.push(...)`
abbrev pub change : Text → Option Text → List Text
change label none = []
change label (some value) = if is_empty value then [] else (label ++ value) ∷ []

abbrev pub changes_of : CheckAvailabilityResult → List Text
changes_of r =
    (if r.status_updated then (text "status → " ++ r.new_status) ∷ [] else [])
    ++ change (text "hostname → ") r.hostname
    ++ change (text "OS → ") r.os_type
    ++ change (text "power → ") r.vsphere_power_state

-- `changes.join(", ")`
abbrev pub join_changes : List Text → Text
join_changes [] = []
join_changes (c ∷ []) = c
join_changes (c ∷ d ∷ cs) = c ++ text ", " ++ join_changes (d ∷ cs)

abbrev pub result_line : List Text → Bool → Text
result_line [] found =
    if found then text "  → found, nothing new to update" else text "  → not found anywhere"
result_line (c ∷ cs) found = text "  → updated: " ++ join_changes (c ∷ cs)

-- `onRecordResult`
unfoldable pub on_record_result : CheckAvailabilityResult → BulkScan → BulkScan
on_record_result r s =
    append_log (result_line (changes_of r) r.found) (record s { done = s.done + 1 })

-- `onRecordError`
unfoldable pub on_record_error : BulkScanRecordError → BulkScan → BulkScan
on_record_error e s = append_log (text "  ✕ error: " ++ e.message) (record s { done = s.done + 1 })

-- `onSummary`
unfoldable pub on_summary : BulkScanSummary → BulkScan → BulkScan
on_summary sum s = record s {
  summary = some sum;
  updates = s.updates + (if ltb 0 sum.updated then 1 else 0);
}

-- `onError`
unfoldable pub on_error : Text → BulkScan → BulkScan
on_error message s = record s { error_msg = some message }

-- The modal, which stays mounted: the prop `open`, the records to scan, the state, and how many
-- scans were sent.
pub record BulkModal : Type 0 where
  pub shown : Bool
  pub ids : List Text
  pub scan : BulkScan
  pub sent : ℕ

abbrev pub same_bool : Bool → Bool → Bool
same_bool true b = b
same_bool false b = not b

-- The effect on `open`, whose last value was `was_open`.
unfoldable pub opening_effect : Bool → BulkModal → BulkModal
unfolding needs_confirm
opening_effect was_open m =
    let reset : BulkScan = record m.scan {
      started = not (needs_confirm m.ids);
      summary = none;
      error_msg = none;
      log = [];
    } in
    if same_bool was_open m.shown then m else if m.shown then record m { scan = reset } else m

-- The effect on `open` and `started`, which reads `started` as it is in the render, not as the other
-- effect has set it for the next one.
unfoldable pub run_effect : Bool → Bool → Bool → BulkModal → BulkModal
unfolding start_run
run_effect was_open was_started started m =
    if same_bool was_open m.shown && same_bool was_started started
    then m
    else if m.shown && started
    then record m { scan = start_run m.ids m.scan; sent = suc m.sent }
    else m

-- Both effects of a render, in the order in which they are declared.
unfoldable pub commit : Bool → Bool → BulkModal → BulkModal
unfolding opening_effect run_effect
commit was_open was_started m =
    run_effect was_open was_started m.scan.started (opening_effect was_open m)

-- The render after a change, and the one that shows what its effects have set.
unfoldable pub rendered : Bool → Bool → BulkModal → BulkModal
unfolding commit
rendered was_open was_started m = commit m.shown m.scan.started (commit was_open was_started m)

-- The parent opens the modal for some records, and `onClose`.
unfoldable pub open_modal : List Text → BulkModal → BulkModal
unfolding rendered
open_modal ids m = rendered m.shown m.scan.started (record m { shown = true; ids = ids })

unfoldable pub close_modal : BulkModal → BulkModal
unfolding rendered
close_modal m = rendered m.shown m.scan.started (record m { shown = false })

-- The button of the confirmation, `setStarted(true)`.
unfoldable pub confirm : BulkModal → BulkModal
unfolding rendered
confirm m = rendered m.shown m.scan.started (record m { scan = record m.scan { started = true } })

-- `Math.round((done / total) * 100)`
unfoldable pub percent : BulkScan → ℕ
percent s = if ltb 0 s.total then (200 * s.done + s.total) / (2 * s.total) else 0
