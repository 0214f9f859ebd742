-- ===== src/PaloAlto/Bulk/Collected.antt =====
-- What a scan of many addresses has collected at its end.
use mathlib.Core.List.{append_assoc, append-nil}
use iop.Stream.Chunks.{concat}
use iop.Stream.Encoded.{IsSent, encode_all, read_chunks-encode}
use iop.Base.{
  true, All, ◌≡◌, refl, sym, ap, ap₂, ◌∙◌, apply_same, false, List, [], ◌∷◌, ◌++◌, Option, none,
  some, Text, text, text_eq, ◌==◌, if◌then◌else◌, inl, inr, Bool-cases,
}
use iop.Stream.{SseEvent, Reply, finished, read_sse}
use iop.Types.PaloAlto.{PaloAltoCheckResult}
use iop.PaloAlto.Bulk.{
  CheckJson, CheckEvent, log_event, result_event, summary_event, error_event, log_call, result_call,
  error_call, check_calls, all_calls, BulkPage, start_bulk_scan, on_bulk_call, on_bulk_calls,
  run_bulk_scan, found_ips, unless_empty, start_bulk_save,
}

-- The results that stand in the stream, as far as they can be read.
abbrev readable : Option PaloAltoCheckResult → List PaloAltoCheckResult
readable none = []
readable (some r) = r ∷ []

abbrev pub results_in : CheckJson → List SseEvent → List PaloAltoCheckResult
results_in j [] = []
results_in j ((kind, data_text) ∷ es) =
    (if kind == text "result" then readable (j.result data_text) else []) ++ results_in j es

abbrev results_of : List CheckEvent → List PaloAltoCheckResult
results_of [] = []
results_of (result_event r ∷ es) = r ∷ results_of es
results_of (log_event ip line ∷ es) = results_of es
results_of (summary_event r ∷ es) = results_of es
results_of (error_event m ∷ es) = results_of es

results_of-append :
    (es fs : List CheckEvent) → results_of (es ++ fs) ≡ results_of es ++ results_of fs
results_of-append [] fs = refl
results_of-append (result_event r ∷ es) fs = ap (λ rs. r ∷ rs) (results_of-append es fs)
results_of-append (log_event ip line ∷ es) fs = results_of-append es fs
results_of-append (summary_event r ∷ es) fs = results_of-append es fs
results_of-append (error_event m ∷ es) fs = results_of-append es fs

-- The calls keep the state's results equal to what was collected.
on_bulk_calls-collected :
    (es : List CheckEvent) (collected : List PaloAltoCheckResult) (s : BulkPage)
    → s.bulk_results ≡ some collected
    → (on_bulk_calls es (collected, s)).1.bulk_results ≡ some (collected ++ results_of es)
unfolding on_bulk_calls on_bulk_call
on_bulk_calls-collected [] collected s h = h ∙ ap some (sym (append-nil collected))
on_bulk_calls-collected (log_event ip line ∷ es) collected s h =
    on_bulk_calls-collected es collected (on_bulk_call (log_event ip line) (collected, s)).1 h
on_bulk_calls-collected (result_event r ∷ es) collected s h =
    on_bulk_calls-collected es (collected ++ r ∷ [])
      (on_bulk_call (result_event r) (collected, s)).1 refl
    ∙ ap some (append_assoc collected (r ∷ []) (results_of es))
on_bulk_calls-collected (summary_event r ∷ es) collected s h =
    on_bulk_calls-collected es collected s h
on_bulk_calls-collected (error_event m ∷ es) collected s h =
    on_bulk_calls-collected es collected (on_bulk_call (error_event m) (collected, s)).1 h

results_of-log : (o : Option (Text × Text)) → results_of (log_call o) ≡ []
results_of-log none = refl
results_of-log (some p) = refl

results_of-result : (o : Option PaloAltoCheckResult) → results_of (result_call o) ≡ readable o
results_of-result none = refl
results_of-result (some r) = refl

results_of-error : (o : Option (Option Text)) → results_of (error_call o) ≡ []
results_of-error none = refl
results_of-error (some none) = refl
results_of-error (some (some m)) = refl

results_of-check_calls :
    (j : CheckJson) (kind data_text : Text)
    → results_of (check_calls j (kind, data_text))
      ≡ (if kind == text "result" then readable (j.result data_text) else [])
unfolding check_calls
results_of-check_calls j kind data_text = elim (Bool-cases (kind == text "log")) [
  | inl log ↦
      rw
        (
          log,
          apply_same (λ (k : Text). k == text "result") kind (text "log") log,
          results_of-log (j.log data_text),
        )
        refl
  | inr other ↦ rw other (elim (Bool-cases (kind == text "result")) [
    | inl result ↦ rw result (results_of-result (j.result data_text))
    | inr neither ↦ rw neither (elim (Bool-cases (kind == text "error")) [
      | inl error ↦ rw error (results_of-error (j.message data_text))
      | inr unknown ↦ rw unknown refl
    ])
  ])
]

results_of-all_calls :
    (j : CheckJson) (es : List SseEvent)
    → results_of (all_calls (check_calls j) es) ≡ results_in j es
unfolding all_calls
results_of-all_calls j [] = refl
results_of-all_calls j ((kind, data_text) ∷ es) =
    results_of-append (check_calls j (kind, data_text)) (all_calls (check_calls j) es)
    ∙ ap₂ (λ (xs ys : List PaloAltoCheckResult). xs ++ ys) (results_of-check_calls j kind data_text)
        (results_of-all_calls j es)

-- What is saved, from the results alone.
abbrev pub found_of : List PaloAltoCheckResult → List Text
found_of [] = []
found_of (r ∷ rs) = if r.found then r.ip_address ∷ found_of rs else found_of rs

found_ips-found_of : (rs : List PaloAltoCheckResult) → found_ips rs ≡ found_of rs
unfolding found_ips
found_ips-found_of [] = refl
found_ips-found_of (r ∷ rs) = elim (Bool-cases (r.found)) [
  | inl yes_found ↦
      rw yes_found (ap (λ (ips : List Text). r.ip_address ∷ ips) (found_ips-found_of rs))
  | inr not_found ↦ rw not_found (found_ips-found_of rs)
]

-- A scan whose stream ends shows the results that stand in it and can be read, each once and in
-- their order, and no longer scans; what is then saved are the addresses found among them, and
-- nothing is sent where there is none.
pub run_bulk_scan-results :
    (j : CheckJson) (reply : Reply) (es : List SseEvent) (s : BulkPage)
    → read_sse reply ≡ finished es
    → let t = run_bulk_scan j reply s in
      (t.bulk_results ≡ some (results_in j es))
      × (t.bulk_scanning ≡ false)
      × ((start_bulk_save t).1 ≡ unless_empty (found_of (results_in j es)))
unfolding run_bulk_scan start_bulk_scan start_bulk_save
run_bulk_scan-results j reply es s h =
    let shown : (run_bulk_scan j reply s).bulk_results ≡ some (results_in j es) = rw h (
      on_bulk_calls-collected (all_calls (check_calls j) es) [] (start_bulk_scan s).0 refl
      ∙ ap some (results_of-all_calls j es)) in
    (shown, refl, rw shown (ap unless_empty (found_ips-found_of (results_in j es))))

-- A server that writes events in the form that the reader expects, their bytes cut into chunks in
-- any way: the scan shows the results among them that can be read, each once and in their order,
-- and no longer scans; what is then saved are the addresses found among them, and nothing is sent
-- where there is none.
pub run_bulk_scan-encode_all :
    (j : CheckJson) (status : Text) (json : Option (Option Text)) (es : List SseEvent)
    (chunks : List Text) (s : BulkPage)
    → All IsSent es
    → concat chunks ≡ encode_all es
    → let t =
        run_bulk_scan j
          (record {
            ok = true;
            has_body = true;
            status_text = status;
            json = json;
            chunks = chunks;
          })
          s in
      (t.bulk_results ≡ some (results_in j es))
      × (t.bulk_scanning ≡ false)
      × ((start_bulk_save t).1 ≡ unless_empty (found_of (results_in j es)))
unfolding read_sse
run_bulk_scan-encode_all j status json es chunks s sent cut_any =
    run_bulk_scan-results j
      (record { ok = true; has_body = true; status_text = status; json = json; chunks = chunks }) es
      s
      (ap (λ (p : List SseEvent × Text). finished p.0) (read_chunks-encode es chunks sent cut_any))
