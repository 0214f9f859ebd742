-- ===== src/CheckModal/Superseded.antt =====
-- A run that a later one has superseded changes nothing that the modal shows, and the modal is
-- running exactly while its latest run is.
use iop.Base.{
  All-kept, ℕ, ◌≡◌, refl, inl, inr, Bool, true, false, not, ◌&&◌, ◌||◌, List, [], ◌∷◌, Option, none,
  some, Text, text, nat_eq, ◌==◌, includes, includes-filter, filter, if◌then◌else◌, arith,
  Bool-cases, All, All-mono, eq_self, apply_same,
}
use iop.Text.Search.{is_empty}
use iop.CheckModal.{
  CheckModal, Event, run_started, modal_closed, received, ended, StreamEvent, progress_event,
  result_event, error_event, abort_current, start_check, on_stream_event, on_check_progress,
  on_check_result, end_check, caught, is_current, receives, also_aborted, handle, run,
  initial_modal,
}

-- Whether the latest run is live.
abbrev pub is_live : Option ℕ → List ℕ → Bool
is_live none live = false
is_live (some k) live = includes live k

-- A live run is the latest one, or aborted.
abbrev pub IsStopped : Option ℕ → List ℕ → ℕ → Type 0
IsStopped current aborted k = (is_current current k || includes aborted k) ≡ true

abbrev IsModal : CheckModal → Type 0
IsModal s = (s.running ≡ is_live s.abort_ref s.live) × All (IsStopped s.abort_ref s.aborted) s.live

-- Aborting the latest run leaves every live run aborted.
pub stops :
    (current : Option ℕ) (aborted : List ℕ) (k : ℕ)
    → IsStopped current aborted k
    → includes (also_aborted current aborted) k ≡ true
stops none aborted k h = ground (arith)
stops (some j) aborted k h = ground (arith)

IsModal-start : (s : CheckModal) → IsModal s → IsModal (start_check s)
unfolding start_check abort_current
IsModal-start s h =
    let self = eq_self s.next_controller in
    let old = s.abort_ref in
    (
      ground (arith, self),
      (
        ground (arith, self),
        All-mono (IsStopped old s.aborted)
            (IsStopped (some s.next_controller) (also_aborted old s.aborted))
            (λ k stopped. ground (arith, stops old s.aborted k stopped)) s.live h.1,
      ),
    )

IsModal-close : (s : CheckModal) → IsModal s → IsModal (abort_current s)
unfolding abort_current
IsModal-close s h = (
  h.0,
  All-mono (IsStopped s.abort_ref s.aborted)
      (IsStopped s.abort_ref (also_aborted s.abort_ref s.aborted))
      (λ k stopped. ground (arith, stops s.abort_ref s.aborted k stopped)) s.live h.1,
)

pub is_live-ended :
    (current : Option ℕ) (live : List ℕ) (k : ℕ) (running : Bool)
    → running ≡ is_live current live
    → (if is_current current k then false else running)
      ≡ is_live current (filter (λ j. not (j == k)) live)
is_live-ended none live k running h = h
is_live-ended (some c) live k running h =
    ground (arith, includes-filter (λ (j : ℕ). not (j == k)) live c)

-- `catch` only touches the error.
caught-kept :
    (thrown : Option Text) (was_aborted : Bool) (s : CheckModal)
    → ((caught thrown was_aborted s).abort_ref ≡ s.abort_ref)
      × ((caught thrown was_aborted s).aborted ≡ s.aborted)
caught-kept none b s = (refl, refl)
caught-kept (some m) true s = (refl, refl)
caught-kept (some m) false s = (refl, refl)

IsModal-end :
    (k : ℕ) (thrown : Option Text) (s : CheckModal) → IsModal s → IsModal (end_check k thrown s)
unfolding end_check
IsModal-end k thrown s h = rw (caught-kept thrown (includes s.aborted k) s).0 (
    rw (caught-kept thrown (includes s.aborted k) s).1 (
      is_live-ended s.abort_ref s.live k s.running h.0,
      All-kept (IsStopped s.abort_ref s.aborted) (λ j. not (j == k)) s.live h.1,
    ))

IsModal-event : (e : StreamEvent) (s : CheckModal) → IsModal s → IsModal (on_stream_event e s)
unfolding on_stream_event on_check_progress on_check_result
IsModal-event (progress_event e) s h = h
IsModal-event (result_event r) s h = h
IsModal-event (error_event m) s h = h

IsModal-handle : (e : Event) (s : CheckModal) → IsModal s → IsModal (handle e s)
unfolding handle
IsModal-handle run_started s h = IsModal-start s h
IsModal-handle modal_closed s h = IsModal-close s h
IsModal-handle (received k e) s h = elim (Bool-cases (receives s k)) [
  | inl taken ↦ rw taken (IsModal-event e s h)
  | inr other ↦ rw other h
]
IsModal-handle (ended k thrown) s h = elim (Bool-cases (includes s.live k)) [
  | inl taken ↦ rw taken (IsModal-end k thrown s h)
  | inr other ↦ rw other h
]

IsModal-run : (es : List Event) (s : CheckModal) → IsModal s → IsModal (run es s)
unfolding run
IsModal-run [] s h = h
IsModal-run (e ∷ es) s h = IsModal-run es (handle e s) (IsModal-handle e s h)

-- A live run that is not the latest was aborted, so that it receives nothing.
pub superseded :
    (current : Option ℕ) (aborted live : List ℕ) (k : ℕ)
    → All (IsStopped current aborted) live
    → is_current current k ≡ false
    → (includes live k && not (includes aborted k)) ≡ false
superseded current aborted [] k h old = refl
superseded current aborted (j ∷ live) k h old = elim (Bool-cases (j == k)) [
  | inl e ↦
      ground (arith, apply_same (λ (x : ℕ). is_current current x || includes aborted x) j k e, h.0)
  | inr e ↦ ground (arith, superseded current aborted live k h.1 old)
]

-- What the end of the latest run shows: its error, unless it was aborted, and that nothing runs.
abbrev pub shown_end : Option Text → Bool → CheckModal → CheckModal
shown_end thrown true s = record s { running = false }
shown_end none false s = record s { running = false }
shown_end (some message) false s = record s {
  error_msg = some (if is_empty message then text "Check Availability failed" else message);
  running = false;
}

caught-shown_end :
    (thrown : Option Text) (was_aborted : Bool) (s : CheckModal)
    → record (caught thrown was_aborted s) { running = false; live = s.live }
      ≡ shown_end thrown was_aborted s
caught-shown_end none true s = refl
caught-shown_end none false s = refl
caught-shown_end (some m) true s = refl
caught-shown_end (some m) false s = refl

-- The end of an aborted run that is not the latest changes only the list of live runs.
end_check-kept :
    (k : ℕ) (thrown : Option Text) (s : CheckModal)
    → is_current s.abort_ref k ≡ false
    → includes s.aborted k ≡ true
    → record (end_check k thrown s) { live = s.live } ≡ s
unfolding end_check
end_check-kept k none s old stopped = rw old refl
end_check-kept k (some m) s old stopped = rw (old, stopped) refl

end_check-shown_end :
    (k : ℕ) (thrown : Option Text) (s : CheckModal)
    → is_current s.abort_ref k ≡ true
    → record (end_check k thrown s) { live = s.live } ≡ shown_end thrown (includes s.aborted k) s
unfolding end_check
end_check-shown_end k thrown s now = rw now (caught-shown_end thrown (includes s.aborted k) s)

ended_as :
    (k : ℕ) (thrown : Option Text) (s : CheckModal) (live now : Bool)
    → All (IsStopped s.abort_ref s.aborted) s.live
    → includes s.live k ≡ live
    → is_current s.abort_ref k ≡ now
    → record (if live then end_check k thrown s else s) { live = s.live }
      ≡ (if now && live then shown_end thrown (includes s.aborted k) s else s)
ended_as k thrown s false true h e f = refl
ended_as k thrown s false false h e f = refl
ended_as k thrown s true true h e f = end_check-shown_end k thrown s f
ended_as k thrown s true false h e f =
    end_check-kept k thrown s f (ground (arith, e, superseded s.abort_ref s.aborted s.live k h f))

-- However runs, events and closings follow each other: the modal is running exactly while its
-- latest run is live; an event changes the modal only if it is of that run, and this run is live
-- and was not aborted; and the end of a run changes no more than the list of live runs, unless it
-- is the latest one: then the modal is not running any more, and shows the error with which the
-- stream ended only if the run was not aborted.
pub run-superseded :
    (es : List Event) (k : ℕ) (e : StreamEvent) (thrown : Option Text)
    → let s = run es initial_modal in
      (s.running ≡ is_live s.abort_ref s.live)
      × (handle (received k e) s
          ≡ (if is_current s.abort_ref k && receives s k then on_stream_event e s else s))
      × (record (handle (ended k thrown) s) { live = s.live } ≡ (
          if is_current s.abort_ref k && includes s.live k
          then shown_end thrown (includes s.aborted k) s
          else s))
unfolding handle
run-superseded es k e thrown =
    let s = run es initial_modal in
    let good = IsModal-run es initial_modal (refl, tt) in
    (
      good.0,
      elim (Bool-cases (is_current s.abort_ref k)) [
        | inl now ↦ rw now refl
        | inr old ↦ rw old (rw (superseded s.abort_ref s.aborted s.live k good.1 old) refl)
      ],
      ended_as k thrown s (includes s.live k) (is_current s.abort_ref k) good.1 refl refl,
    )
