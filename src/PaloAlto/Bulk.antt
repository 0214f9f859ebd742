-- ===== src/PaloAlto/Bulk.antt =====
-- frontend/src/pages/PaloAltoCheck/PaloAltoCheckPage.tsx: the scan of many addresses and the saving
-- of those found, over `paloaltoCheckStream` and `paloaltoScanSubnetStream` of
-- frontend/src/api/integrations.ts. While a scan runs its button is disabled, so that no other scan
-- aborts it.
pub mod Collected
use iop.Base.{
  ℕ, ◌+◌, ◌*◌, ◌/◌, Bool, true, false, List, [], ◌∷◌, ◌++◌, map, Option, none, some, Text, text,
  length, ltb, take, filter, text_eq, ◌==◌, if◌then◌else◌,
}
use iop.Api.{Response, resolved, rejected, ApiError}
use iop.Stream.{SseEvent, Reply, Outcome, thrown, finished, read_sse}
use iop.Text.Number.{decimal}
use iop.Text.Search.{is_empty}
use iop.Text.Trim.{trim}
use iop.Types.PaloAlto.{PaloAltoCheckResult, PaloAltoBulkSaveResult, PaloAltoScanSubnetResult}
use iop.PaloAlto.{BulkInputMode, cidr_mode, list_mode, BulkInput, bulk_ip_list}

-- `JSON.parse(data)` with the fields that a handler reads; `none` where it throws.
pub record CheckJson : Type 0 where
  pub log : Text → Option (Text × Text)
  pub result : Text → Option PaloAltoCheckResult
  pub summary : Text → Option PaloAltoScanSubnetResult
  pub message : Text → Option (Option Text)

-- The calls of the handlers.
pub data CheckEvent : Type 0 where
  log_event : Text → Text → CheckEvent
  result_event : PaloAltoCheckResult → CheckEvent
  summary_event : PaloAltoScanSubnetResult → CheckEvent
  error_event : Text → CheckEvent

abbrev pub log_call : Option (Text × Text) → List CheckEvent
log_call none = []
log_call (some p) = log_event p.0 p.1 ∷ []

abbrev pub result_call : Option PaloAltoCheckResult → List CheckEvent
result_call none = []
result_call (some r) = result_event r ∷ []

abbrev pub summary_call : Option PaloAltoScanSubnetResult → List CheckEvent
summary_call none = []
summary_call (some r) = summary_event r ∷ []

abbrev pub error_call : Option (Option Text) → List CheckEvent
error_call none = []
error_call (some none) = error_event (text "Unknown streaming error") ∷ []
error_call (some (some m)) = error_event m ∷ []

-- The function of `paloaltoCheckStream` that `readSSE` calls, where all handlers are given.
unfoldable pub check_calls : CheckJson → SseEvent → List CheckEvent
check_calls j (kind, data_text) =
    if kind == text "log"
    then log_call (j.log data_text)
    else if kind == text "result"
    then result_call (j.result data_text)
    else if kind == text "error"
    then error_call (j.message data_text)
    else []

-- That of `paloaltoScanSubnetStream`.
unfoldable pub scan_subnet_calls : CheckJson → SseEvent → List CheckEvent
scan_subnet_calls j (kind, data_text) =
    if kind == text "log"
    then log_call (j.log data_text)
    else if kind == text "result"
    then result_call (j.result data_text)
    else if kind == text "summary"
    then summary_call (j.summary data_text)
    else if kind == text "error"
    then error_call (j.message data_text)
    else []

unfoldable pub all_calls : (SseEvent → List CheckEvent) → List SseEvent → List CheckEvent
all_calls calls [] = []
all_calls calls (e ∷ es) = calls e ++ all_calls calls es

pub data BulkNotice : Type 0 where
  synced : Text → Option Text → BulkNotice
  save_failed : Option Text → BulkNotice

pub record BulkPage : Type 0 where
  pub input : BulkInput
  pub bulk_scanning : Bool
  pub bulk_results : Option (List PaloAltoCheckResult)
  pub bulk_error_msg : Option Text
  pub bulk_saving : Bool
  pub bulk_live_log : List Text
  pub notices : List BulkNotice

pub data ScanBody : Type 0 where
  cidr_body : Text → ScanBody
  addresses_body : List Text → ScanBody

unfoldable pub scan_body : BulkInputMode → Text → Text → ScanBody
unfolding trim bulk_ip_list
scan_body cidr_mode cidr list = cidr_body (trim cidr)
scan_body list_mode cidr list = addresses_body (bulk_ip_list list)

-- `runBulkScan` up to its request, and the request's body.
unfoldable pub start_bulk_scan : BulkPage → BulkPage × ScanBody
unfolding scan_body
start_bulk_scan s = (
  record s {
    bulk_scanning = true;
    bulk_error_msg = none;
    bulk_results = some [];
    bulk_live_log = [];
  },
  scan_body s.input.mode s.input.cidr s.input.list,
)

-- A handler, with the results that the run has collected before.
unfoldable pub on_bulk_call :
    CheckEvent → List PaloAltoCheckResult × BulkPage → List PaloAltoCheckResult × BulkPage
on_bulk_call (log_event ip line) (collected, s) = (
  collected,
  record s { bulk_live_log = s.bulk_live_log ++ (text "[" ++ ip ++ text "] " ++ line) ∷ [] },
)
on_bulk_call (result_event r) (collected, s) =
    let pushed : List PaloAltoCheckResult = collected ++ r ∷ [] in
    (pushed, record s { bulk_results = some pushed })
on_bulk_call (summary_event r) (collected, s) = (collected, s)
on_bulk_call (error_event m) (collected, s) = (collected, record s { bulk_error_msg = some m })

unfoldable pub on_bulk_calls :
    List CheckEvent → List PaloAltoCheckResult × BulkPage → List PaloAltoCheckResult × BulkPage
unfolding on_bulk_call
on_bulk_calls [] p = p
on_bulk_calls (e ∷ es) p = on_bulk_calls es (on_bulk_call e p)

abbrev pub ended_scan : CheckJson → Outcome → BulkPage → BulkPage
ended_scan j (finished es) s = (on_bulk_calls (all_calls (check_calls j) es) ([], s)).1
ended_scan j (thrown message) s = record s {
  bulk_error_msg = some (if is_empty message then text "PaloAlto subnet check failed" else message);
}

-- `runBulkScan` for an answer, `catch` and `finally` included.
unfoldable pub run_bulk_scan : CheckJson → Reply → BulkPage → BulkPage
unfolding start_bulk_scan on_bulk_calls all_calls check_calls read_sse
run_bulk_scan j reply s = record (ended_scan j (read_sse reply) (start_bulk_scan s).0) {
  bulk_scanning = false;
}

-- `bulkResults.filter((r) => r.found).map((r) => r.ip_address)`
unfoldable pub found_ips : List PaloAltoCheckResult → List Text
found_ips rs = map (λ r. r.ip_address) (filter (λ r. r.found) rs)

-- `if (foundIps.length === 0) return`
abbrev pub unless_empty : List Text → Option (List Text)
unless_empty [] = none
unless_empty (ip ∷ ips) = some (ip ∷ ips)

abbrev pub save_request : Option (List PaloAltoCheckResult) → Option (List Text)
save_request none = none
save_request (some rs) = unless_empty (found_ips rs)

abbrev pub is_sent : Option (List Text) → Bool → Bool
is_sent none saving = saving
is_sent (some ips) saving = true

-- `runBulkSave` up to its request, which is missing where nothing was found.
unfoldable pub start_bulk_save : BulkPage → BulkPage × Option (List Text)
unfolding found_ips
start_bulk_save s =
    let request = save_request s.bulk_results in
    (record s { bulk_saving = is_sent request s.bulk_saving }, request)

-- `errors.slice(0, 3).join("; ")`
abbrev pub join_errors : List Text → Text
join_errors [] = []
join_errors (e ∷ []) = e
join_errors (e ∷ f ∷ es) = e ++ text "; " ++ join_errors (f ∷ es)

abbrev pub skipped_text : ℕ → List Text → Option Text
skipped_text skipped errors =
    if ltb 0 skipped
    then some (
        decimal skipped
        ++ text " skipped"
        ++ (if ltb 0 (length errors) then text " — " ++ join_errors (take 3 errors) else []))
    else none

abbrev pub detail_or_message : ApiError → Option Text
detail_or_message e = elim (e.detail) [ some d ↦ some d | none ↦ e.message ]

unfoldable pub settle_bulk_save : Response PaloAltoBulkSaveResult → BulkPage → BulkPage
settle_bulk_save (resolved r) s = record s {
  notices =
      synced
        (text "Synced to IP Records: "
          ++ decimal r.created
          ++ text " created, "
          ++ decimal r.updated
          ++ text " updated")
        (skipped_text r.skipped r.errors)
      ∷ s.notices;
  bulk_saving = false;
}
settle_bulk_save (rejected e) s = record s {
  notices = save_failed (detail_or_message e) ∷ s.notices;
  bulk_saving = false;
}

-- `Math.round((bulkResults.length / bulkExpectedTotal) * 100)`
unfoldable pub scan_percent : ℕ → ℕ → ℕ
scan_percent done expected = if ltb 0 expected then (200 * done + expected) / (2 * expected) else 0
