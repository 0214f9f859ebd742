-- ===== src/BulkScan/Opened.antt =====
-- The modal of the bulk scan over any sequence of openings, closings and confirmations.
use iop.Base.{
  ℕ, ◌+◌, ◌≡◌, refl, ◌∙◌, Bool, true, false, not, List, [], ◌∷◌, Text, length, leb, ltb,
  if◌then◌else◌, arith,
}
use iop.BulkScan.{
  BulkScan, BulkModal, initial_scan, needs_confirm, start_run, opening_effect, run_effect, commit,
  rendered, open_modal, close_modal, confirm,
}

pub data ModalEvent : Type 0 where
  opened : List Text → ModalEvent
  closed confirmed : ModalEvent

unfoldable pub on_modal : ModalEvent → BulkModal → BulkModal
unfolding open_modal close_modal confirm
on_modal (opened ids) m = open_modal ids m
on_modal closed m = close_modal m
on_modal confirmed m = confirm m

unfoldable pub run_modal : List ModalEvent → BulkModal → BulkModal
unfolding on_modal
run_modal [] m = m
run_modal (e ∷ es) m = run_modal es (on_modal e m)

abbrev pub initial_bulk : BulkModal
initial_bulk = record { shown = false; ids = []; scan = initial_scan; sent = 0 }

-- At most twenty records need no confirmation.
abbrev pub is_small : List Text → Bool
is_small ids = leb (length ids) 20

-- Whether the modal is shown and started after an event, and the scans that the event sends.
abbrev pub shown_after : ModalEvent → Bool → Bool
shown_after (opened ids) shown = true
shown_after closed shown = false
shown_after confirmed shown = shown

abbrev pub started_after : ModalEvent → Bool → Bool → Bool
started_after (opened ids) true started = started
started_after (opened ids) false started = is_small ids
started_after closed shown started = started
started_after confirmed shown started = true

abbrev pub scans_of : ModalEvent → Bool → Bool → ℕ
scans_of (opened ids) false true = 1
scans_of (opened ids) false false = if is_small ids then 1 else 0
scans_of confirmed true false = 1
scans_of e shown started = 0

abbrev pub scans_in : List ModalEvent → Bool → Bool → ℕ
scans_in [] shown started = 0
scans_in (e ∷ es) shown started =
    scans_of e shown started + scans_in es (shown_after e shown) (started_after e shown started)

abbrev Moved : ModalEvent → BulkModal → Type 0
Moved e m =
    ((on_modal e m).shown ≡ shown_after e m.shown)
    × ((on_modal e m).scan.started ≡ started_after e m.shown m.scan.started)
    × ((on_modal e m).sent ≡ m.sent + scans_of e m.shown m.scan.started)

small-not_big : (ids : List Text) → is_small ids ≡ not (ltb 20 (length ids))
small-not_big ids = ground arith

-- A modal that is shown or not, and started or not.
abbrev at : Bool → Bool → List Text → BulkScan → ℕ → BulkModal
at shown started ids scan sent = record {
  shown = shown;
  ids = ids;
  scan = record scan { started = started };
  sent = sent;
}

opened-Moved :
    (new ids : List Text) (scan : BulkScan) (n : ℕ) (started big : Bool)
    → ltb 20 (length new) ≡ big
    → Moved (opened new) (at false started ids scan n)
unfolding on_modal open_modal rendered commit opening_effect run_effect start_run needs_confirm
opened-Moved new ids scan n true true e = rw (small-not_big new, e) (refl, refl, omega arith)
opened-Moved new ids scan n true false e = rw (small-not_big new, e) (refl, refl, omega arith)
opened-Moved new ids scan n false true e = rw (small-not_big new, e) (refl, refl, omega arith)
opened-Moved new ids scan n false false e = rw (small-not_big new, e) (refl, refl, omega arith)

event-Moved :
    (e : ModalEvent) (shown started : Bool) (ids : List Text) (scan : BulkScan) (n : ℕ)
    → Moved e (at shown started ids scan n)
unfolding on_modal open_modal close_modal confirm rendered commit opening_effect run_effect
    start_run needs_confirm
event-Moved (opened new) false started ids scan n =
    opened-Moved new ids scan n started (ltb 20 (length new)) refl
event-Moved (opened new) true true ids scan n = (refl, refl, omega arith)
event-Moved (opened new) true false ids scan n = (refl, refl, omega arith)
event-Moved closed true true ids scan n = (refl, refl, omega arith)
event-Moved closed true false ids scan n = (refl, refl, omega arith)
event-Moved closed false true ids scan n = (refl, refl, omega arith)
event-Moved closed false false ids scan n = (refl, refl, omega arith)
event-Moved confirmed true true ids scan n = (refl, refl, omega arith)
event-Moved confirmed true false ids scan n = (refl, refl, omega arith)
event-Moved confirmed false true ids scan n = (refl, refl, omega arith)
event-Moved confirmed false false ids scan n = (refl, refl, omega arith)

sent-from :
    (es : List ModalEvent) (m : BulkModal)
    → (run_modal es m).sent ≡ m.sent + scans_in es m.shown m.scan.started
unfolding run_modal
sent-from [] m = omega arith
sent-from (e ∷ es) m =
    let moved = event-Moved e m.shown m.scan.started m.ids m.scan m.sent in
    let sent_now = moved.2 in
    sent-from es (on_modal e m) ∙ rw (moved.0, moved.1) (omega (arith, sent_now))

-- Over any sequence of openings, closings and confirmations, each of which runs the two effects on
-- the state of its render: a scan is sent where the modal is confirmed while it is shown and not
-- started, and where it is opened, if at most twenty records are to be scanned or if the modal was
-- left started, by a small scan or a confirmation, the last time that it was shown; and no other.
-- A modal that was left started so sends a scan of more than twenty records without a confirmation.
pub sent-scans_in :
    (es : List ModalEvent) → (run_modal es initial_bulk).sent ≡ scans_in es false false
sent-scans_in es = sent-from es initial_bulk ∙ omega arith
