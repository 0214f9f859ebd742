-- ===== src/CheckModal/Tests.antt =====
-- Tests and witnesses for the availability check of one address.
use iop.Base.{◌≡◌, ◌&&◌, refl, List, [], ◌∷◌, some, text, nat_eq, includes, if◌then◌else◌}
use iop.CheckModal.{
  CheckModal, Event, run_started, received, ended, error_event, run, handle, initial_modal,
  is_current, receives, on_stream_event, start_check, abort_current, end_check,
}
use iop.CheckModal.Superseded.{is_live, shown_end, run-superseded}

-- The second run aborts the first, whose stream then rejects; the second goes on.
abbrev events : List Event
events =
    run_started
    ∷ received 0 (error_event (text "a"))
    ∷ run_started
    ∷ received 0 (error_event (text "b"))
    ∷ ended 0 (some (text "AbortError"))
    ∷ received 1 (error_event (text "c"))
    ∷ []

latest_shown : (run events initial_modal).error_msg ≡ some (text "c")
unfolding run handle start_check abort_current end_check on_stream_event
latest_shown = refl

-- Both runs are live, and the first was aborted.
abbrev overtaken : CheckModal
overtaken = run (run_started ∷ run_started ∷ []) initial_modal

run-superseded_example :
    (overtaken.running ≡ is_live overtaken.abort_ref overtaken.live)
    × (handle (received 0 (error_event (text "d"))) overtaken ≡ (
        if is_current overtaken.abort_ref 0 && receives overtaken 0
        then on_stream_event (error_event (text "d")) overtaken
        else overtaken))
    × (record (handle (ended 0 (some (text "AbortError"))) overtaken) { live = overtaken.live } ≡ (
        if is_current overtaken.abort_ref 0 && includes overtaken.live 0
        then shown_end (some (text "AbortError")) (includes overtaken.aborted 0) overtaken
        else overtaken))
run-superseded_example =
    run-superseded (run_started ∷ run_started ∷ []) 0 (error_event (text "d"))
      (some (text "AbortError"))
