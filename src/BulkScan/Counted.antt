-- ===== src/BulkScan/Counted.antt =====
-- What the modal shows after a stream: the records done and the summary.
use iop.Base.{
  ℕ, ◌+◌, ◌*◌, ◌≤◌, ◌<◌, ◌≡◌, refl, ap, ◌∙◌, inl, inr, Bool, true, false, List, [], ◌∷◌, Option,
  none, some, Text, text, length, ltb, text_eq, ◌==◌, if◌then◌else◌, arith, All, Bool-cases,
}
use native.Mathlib.Nat.{div-lt_iff_lt-mul}
use iop.Stream.{SseEvent, read_sse}
use iop.Stream.Chunks.{concat}
use iop.Stream.Encoded.{IsSent, encode_all, read_chunks-encode}
use iop.BulkScan.{
  BulkScan, BulkScanSummary, BulkScanRecordStart, BulkScanRecordError,
  CheckAvailabilityProgressEvent, CheckAvailabilityResult, start_run, on_record_start, on_progress,
  on_record_result, on_record_error, on_summary, on_error, percent,
}
use iop.BulkScan.Events.{Json, when_parsed, on_event, on_events, run, on_error_event}

abbrev pub is_parsed : {A : Type 0} → Option A → ℕ
is_parsed none = 0
is_parsed (some a) = 1

-- The events that report one record as done.
abbrev pub reports : Json → SseEvent → ℕ
reports j e =
    if e.0 == text "result"
    then is_parsed (j.record_result e.1)
    else if e.0 == text "record-error"
    then is_parsed (j.record_error e.1)
    else 0

abbrev pub reported : Json → List SseEvent → ℕ
reported j [] = 0
reported j (e ∷ es) = reports j e + reported j es

-- The summary after an event: a new one takes the place of that before.
abbrev newer : Option BulkScanSummary → Option BulkScanSummary → Option BulkScanSummary
newer old none = old
newer old (some new) = some new

abbrev pub summary_after : Json → Option BulkScanSummary → List SseEvent → Option BulkScanSummary
summary_after j old [] = old
summary_after j old (e ∷ es) =
    summary_after j (if e.0 == text "summary" then newer old (j.summary e.1) else old) es

-- From `s` to `t`: so many more records done, and this summary.
abbrev Moved : ℕ → Option BulkScanSummary → BulkScan → BulkScan → Type 0
Moved n new s t = (t.done ≡ s.done + n) × (t.total ≡ s.total) × (t.summary ≡ new)

on_record_start-Moved :
    (o : Option BulkScanRecordStart) (s : BulkScan)
    → Moved 0 s.summary s (when_parsed o on_record_start s)
unfolding on_record_start
on_record_start-Moved none s = (omega arith, refl, refl)
on_record_start-Moved (some a) s = (omega arith, refl, refl)

on_progress-Moved :
    (o : Option CheckAvailabilityProgressEvent) (s : BulkScan)
    → Moved 0 s.summary s (when_parsed o on_progress s)
unfolding on_progress
on_progress-Moved none s = (omega arith, refl, refl)
on_progress-Moved (some a) s = (omega arith, refl, refl)

on_record_result-Moved :
    (o : Option CheckAvailabilityResult) (s : BulkScan)
    → Moved (is_parsed o) s.summary s (when_parsed o on_record_result s)
unfolding on_record_result
on_record_result-Moved none s = (omega arith, refl, refl)
on_record_result-Moved (some a) s = (refl, refl, refl)

on_record_error-Moved :
    (o : Option BulkScanRecordError) (s : BulkScan)
    → Moved (is_parsed o) s.summary s (when_parsed o on_record_error s)
unfolding on_record_error
on_record_error-Moved none s = (omega arith, refl, refl)
on_record_error-Moved (some a) s = (refl, refl, refl)

on_summary-Moved :
    (o : Option BulkScanSummary) (s : BulkScan)
    → Moved 0 (newer s.summary o) s (when_parsed o on_summary s)
unfolding on_summary
on_summary-Moved none s = (omega arith, refl, refl)
on_summary-Moved (some a) s = (omega arith, refl, refl)

on_error_event-Moved :
    (o : Option (Option Text)) (s : BulkScan) → Moved 0 s.summary s (when_parsed o on_error_event s)
unfolding on_error
on_error_event-Moved none s = (omega arith, refl, refl)
on_error_event-Moved (some a) s = (omega arith, refl, refl)

otherwise-Moved :
    (b : Bool) (o : Option (Option Text)) (s : BulkScan)
    → Moved 0 s.summary s (if b then when_parsed o on_error_event s else s)
otherwise-Moved true o s = on_error_event-Moved o s
otherwise-Moved false o s = (omega arith, refl, refl)

on_event_lem :
    (j : Json) (kind data_text : Text) (s : BulkScan)
    → Moved
        (reports j (kind, data_text))
        (if kind == text "summary" then newer s.summary (j.summary data_text) else s.summary)
        s
        (on_event j (kind, data_text) s)
unfolding on_event
on_event_lem j kind d s = elim (Bool-cases (kind == text "record-start")) [
  | inl e ↦
      rw ((text_eq.same_iff kind (text "record-start")).0 e)
        (on_record_start-Moved (j.record_start d) s)
  | inr a ↦ elim (Bool-cases (kind == text "progress")) [
    | inl e ↦
        rw ((text_eq.same_iff kind (text "progress")).0 e) (on_progress-Moved (j.progress d) s)
    | inr b ↦ elim (Bool-cases (kind == text "result")) [
      | inl e ↦
          rw ((text_eq.same_iff kind (text "result")).0 e)
            (on_record_result-Moved (j.record_result d) s)
      | inr c ↦ elim (Bool-cases (kind == text "record-error")) [
        | inl e ↦
            rw ((text_eq.same_iff kind (text "record-error")).0 e)
              (on_record_error-Moved (j.record_error d) s)
        | inr f ↦ elim (Bool-cases (kind == text "summary")) [
          | inl e ↦
              rw ((text_eq.same_iff kind (text "summary")).0 e) (on_summary-Moved (j.summary d) s)
          | inr g ↦
              rw a
                (rw b (rw c (rw f (rw g (otherwise-Moved (kind == text "error") (j.message d) s)))))
        ]
      ]
    ]
  ]
]

on_events_lem :
    (j : Json) (es : List SseEvent) (s : BulkScan)
    → Moved (reported j es) (summary_after j s.summary es) s (on_events j es s)
unfolding on_events
on_events_lem j [] s = (omega arith, refl, refl)
on_events_lem j (e ∷ es) s =
    let first = on_event_lem j e.0 e.1 s in
    let rest = on_events_lem j es (on_event j e s) in
    let done_first = first.0 in
    let done_rest = rest.0 in
    (
      omega (arith, done_first, done_rest),
      rest.1 ∙ first.1,
      rest.2 ∙ ap (λ (o : Option BulkScanSummary). summary_after j o es) first.2,
    )

-- When a scan's request is answered by events, in whatever chunks their bytes arrive, the modal
-- has counted one record done for each result and each record error that could be parsed, out of
-- as many as were asked for, and it shows the last summary.
pub run_lem :
    (j : Json) (ids : List Text) (aborted : Bool) (status : Text) (json : Option (Option Text))
    (es : List SseEvent) (chunks : List Text) (s : BulkScan)
    → All IsSent es
    → concat chunks ≡ encode_all es
    → let t =
        run j ids aborted
          (record {
            ok = true;
            has_body = true;
            status_text = status;
            json = json;
            chunks = chunks;
          })
          s in
      (t.done ≡ reported j es) × (t.total ≡ length ids) × (t.summary ≡ summary_after j none es)
unfolding run read_sse start_run
run_lem j ids aborted status json es chunks s h e =
    let s0 = start_run ids s in
    let moved = on_events_lem j es s0 in
    let done = moved.0 in
    rw (read_chunks-encode es chunks h e) (omega (arith, done), moved.1, moved.2)

-- The percentage never exceeds one hundred while no more records are done than were asked for.
pub percent-bounded : (s : BulkScan) → s.done ≤ s.total → percent s ≤ 100
unfolding percent
percent-bounded s h = elim (Bool-cases (ltb 0 s.total)) [
  | inl e ↦
      let some_total : 0 < 2 * s.total = ground (arith) in
      let less : 200 * s.done + s.total < 101 * (2 * s.total) = ground (arith) in
      let bound = (div-lt_iff_lt-mul some_total).1 less in rw e (omega (arith, bound))
  | inr e ↦ rw e (omega arith)
]
