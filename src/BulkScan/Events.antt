-- ===== src/BulkScan/Events.antt =====
-- `bulkCheckAvailabilityStream` of frontend/src/api/ipRecords.ts, and `run` of the modal around it.
use iop.Base.{
  Bool, true, false, List, [], ◌∷◌, Option, none, some, Text, text, text_eq, ◌==◌, if◌then◌else◌,
}
use iop.Text.Search.{is_empty}
use iop.Stream.{SseEvent, Reply, Outcome, thrown, finished, read_sse}
use iop.BulkScan.{
  BulkScan, BulkScanRecordStart, BulkScanRecordError, BulkScanSummary,
  CheckAvailabilityProgressEvent, CheckAvailabilityResult, start_run, on_record_start, on_progress,
  on_record_result, on_record_error, on_summary, on_error, or_else,
}

-- `JSON.parse(data)` with the fields that a handler reads; `none` where it throws.
pub record Json : Type 0 where
  pub record_start : Text → Option BulkScanRecordStart
  pub progress : Text → Option CheckAvailabilityProgressEvent
  pub record_result : Text → Option CheckAvailabilityResult
  pub record_error : Text → Option BulkScanRecordError
  pub summary : Text → Option BulkScanSummary
  pub message : Text → Option (Option Text)

-- The handler where the data was parsed; `catch` skips the event otherwise.
abbrev pub when_parsed : {A : Type 0} → Option A → (A → BulkScan → BulkScan) → BulkScan → BulkScan
when_parsed none handler s = s
when_parsed (some a) handler s = handler a s

abbrev pub on_error_event : Option Text → BulkScan → BulkScan
on_error_event message s = on_error (or_else message (text "Unknown streaming error")) s

-- The function that `readSSE` calls, with all the handlers of the modal.
unfoldable pub on_event : Json → SseEvent → BulkScan → BulkScan
unfolding on_record_start on_progress on_record_result on_record_error on_summary on_error
on_event j (kind, data_text) s =
    if kind == text "record-start"
    then when_parsed (j.record_start data_text) on_record_start s
    else if kind == text "progress"
    then when_parsed (j.progress data_text) on_progress s
    else if kind == text "result"
    then when_parsed (j.record_result data_text) on_record_result s
    else if kind == text "record-error"
    then when_parsed (j.record_error data_text) on_record_error s
    else if kind == text "summary"
    then when_parsed (j.summary data_text) on_summary s
    else if kind == text "error"
    then when_parsed (j.message data_text) on_error_event s
    else s

unfoldable pub on_events : Json → List SseEvent → BulkScan → BulkScan
unfolding on_event
on_events j [] s = s
on_events j (e ∷ es) s = on_events j es (on_event j e s)

-- `catch`: an aborted scan is left as it is.
abbrev pub end_run : Json → Bool → Outcome → BulkScan → BulkScan
end_run j aborted (finished es) s = on_events j es s
end_run j true (thrown message) s = s
end_run j false (thrown message) s = record s {
  error_msg = some (if is_empty message then text "Bulk scan failed" else message);
}

unfoldable pub run : Json → List Text → Bool → Reply → BulkScan → BulkScan
unfolding start_run on_events read_sse
run j ids aborted reply s = end_run j aborted (read_sse reply) (start_run ids s)
