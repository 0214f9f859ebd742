-- ===== src/CheckModal.antt =====
-- frontend/src/components/common/CheckAvailabilityModal.tsx over `handleCheckAvailabilityEvent` of
-- frontend/src/api/ipRecords.ts. A run has the number of its AbortController; a stream that was
-- aborted gives no event any more, and then rejects.
pub mod Superseded
mod Tests
use iop.Base.{
  ℕ, suc, Bool, true, false, not, ◌&&◌, ◌||◌, List, [], ◌∷◌, Option, none, some, Text, text, nat_eq,
  ◌==◌, includes, filter, if◌then◌else◌,
}
use iop.Text.Search.{is_empty}
use iop.BulkScan.{
  Source, device42, zabbix, paloalto, vsphere, CheckAvailabilityProgressEvent,
  CheckAvailabilityResult, CheckStatus,
}

pub data SourceState : Type 0 where
  pending : SourceState
  reported : CheckAvailabilityProgressEvent → SourceState

pub record CheckModal : Type 0 where
  pub sources : Source → SourceState
  pub result : Option CheckAvailabilityResult
  pub error_msg : Option Text
  pub running : Bool
  pub updates : ℕ
  pub abort_ref : Option ℕ
  pub next_controller : ℕ
  pub live : List ℕ
  pub aborted : List ℕ

abbrev pub same_source : Source → Source → Bool
same_source device42 device42 = true
same_source zabbix zabbix = true
same_source paloalto paloalto = true
same_source vsphere vsphere = true
same_source a b = false

-- `abortRef.current?.abort()`
abbrev pub also_aborted : Option ℕ → List ℕ → List ℕ
also_aborted none aborted = aborted
also_aborted (some k) aborted = k ∷ aborted

unfoldable pub abort_current : CheckModal → CheckModal
abort_current s = record s { aborted = also_aborted s.abort_ref s.aborted }

-- `run` up to its request.
unfoldable pub start_check : CheckModal → CheckModal
unfolding abort_current
start_check s =
    let stopped = abort_current s in
    record stopped {
      sources = λ source. pending;
      result = none;
      error_msg = none;
      running = true;
      abort_ref = some s.next_controller;
      next_controller = suc s.next_controller;
      live = s.next_controller ∷ s.live;
    }

-- `onProgress`
unfoldable pub on_check_progress : CheckAvailabilityProgressEvent → CheckModal → CheckModal
on_check_progress e s = record s {
  sources = λ source. if same_source e.source source then reported e else s.sources source;
}

-- `onResult`
unfoldable pub on_check_result : CheckAvailabilityResult → CheckModal → CheckModal
on_check_result r s = record s {
  result = some r;
  updates = if r.status_updated then suc s.updates else s.updates;
}

abbrev pub on_check_error : Text → CheckModal → CheckModal
on_check_error message s = record s { error_msg = some message }

abbrev pub is_current : Option ℕ → ℕ → Bool
is_current none k = false
is_current (some j) k = j == k

-- `catch`: the error of an aborted run is not shown.
abbrev pub caught : Option Text → Bool → CheckModal → CheckModal
caught none was_aborted s = s
caught (some message) true s = s
caught (some message) false s =
    on_check_error (if is_empty message then text "Check Availability failed" else message) s

-- `run` after its stream has ended, with the error that it threw: `catch` and `finally`.
unfoldable pub end_check : ℕ → Option Text → CheckModal → CheckModal
end_check k thrown s =
    let told : CheckModal = caught thrown (includes s.aborted k) s in
    record told {
      running = if is_current s.abort_ref k then false else s.running;
      live = filter (λ j. not (j == k)) s.live;
    }

-- What a stream gives to the handlers.
pub data StreamEvent : Type 0 where
  progress_event : CheckAvailabilityProgressEvent → StreamEvent
  result_event : CheckAvailabilityResult → StreamEvent
  error_event : Text → StreamEvent

unfoldable pub on_stream_event : StreamEvent → CheckModal → CheckModal
unfolding on_check_progress on_check_result
on_stream_event (progress_event e) s = on_check_progress e s
on_stream_event (result_event r) s = on_check_result r s
on_stream_event (error_event m) s = on_check_error m s

pub data Event : Type 0 where
  run_started modal_closed : Event
  received : ℕ → StreamEvent → Event
  ended : ℕ → Option Text → Event

-- The stream of a run gives events while it is live and not aborted, and ends once.
abbrev pub receives : CheckModal → ℕ → Bool
receives s k = includes s.live k && not (includes s.aborted k)

unfoldable pub handle : Event → CheckModal → CheckModal
unfolding start_check abort_current on_stream_event end_check
handle run_started s = start_check s
handle modal_closed s = abort_current s
handle (received k e) s = if receives s k then on_stream_event e s else s
handle (ended k thrown) s = if includes s.live k then end_check k thrown s else s

unfoldable pub run : List Event → CheckModal → CheckModal
unfolding handle
run [] s = s
run (e ∷ es) s = run es (handle e s)

abbrev pub initial_modal : CheckModal
initial_modal = record {
  sources = λ source. pending;
  result = none;
  error_msg = none;
  running = false;
  updates = 0;
  abort_ref = none;
  next_controller = 0;
  live = [];
  aborted = [];
}
