-- ===== src/BulkScan/Tests.antt =====
-- Tests and witnesses for the bulk availability scan.
use iop.Base.{ℕ, zero, suc, ◌≡◌, refl, true, false, List, [], ◌∷◌, none, some, Text, text}
use iop.Text.Trim.{trim}
use iop.Stream.{SseEvent}
use iop.Stream.Encoded.{IsSent, encode_all}
use iop.BulkScan.{
  BulkScan, BulkScanSummary, initial_scan, percent, est_minutes, CheckAvailabilityResult,
}
use iop.BulkScan.Events.{Json, run}
use iop.BulkScan.Counted.{reported, run_lem}
use iop.BulkScan.Opened.{
  ModalEvent, opened, closed, confirmed, run_modal, initial_bulk, scans_in, sent-scans_in,
}

abbrev result : CheckAvailabilityResult
result = record {
  ip_address = text "10.0.0.1";
  found = true;
  status_updated = false;
  new_status = [];
  hostname = none;
  os_type = none;
  vsphere_power_state = none;
}

abbrev two_scanned : BulkScanSummary
two_scanned = record { total = 2; scanned = 2; found = 2; updated = 1; errors = [] }

-- Every data is read as the sample.
abbrev json : Json
json = record {
  record_start = λ t. none;
  progress = λ t. none;
  record_result = λ t. some result;
  record_error = λ t. none;
  summary = λ t. some two_scanned;
  message = λ t. none;
}

abbrev events : List SseEvent
events = (text "result", text "{}") ∷ (text "result", text "{}") ∷ (text "summary", text "{}") ∷ []

reports_two : reported json events ≡ 2
reports_two = refl

brace-IsSent : IsSent (text "summary", text "{}")
unfolding trim
brace-IsSent = (
  ((refl, (refl, (refl, (refl, (refl, (refl, (refl, tt))))))), refl),
  ((refl, (refl, tt)), refl),
  refl,
)

result-IsSent : IsSent (text "result", text "{}")
unfolding trim
result-IsSent =
    (((refl, (refl, (refl, (refl, (refl, (refl, tt)))))), refl), ((refl, (refl, tt)), refl), refl)

abbrev ids : List Text
ids = text "a" ∷ text "b" ∷ []

run_lem_example :
    ((run json ids false
        (record {
          ok = true;
          has_body = true;
          status_text = text "200";
          json = none;
          chunks = encode_all events ∷ [];
        })
        initial_scan).done
      ≡ 2)
    × ((run json ids false
          (record {
            ok = true;
            has_body = true;
            status_text = text "200";
            json = none;
            chunks = encode_all events ∷ [];
          })
          initial_scan).total
        ≡ 2)
    × ((run json ids false
          (record {
            ok = true;
            has_body = true;
            status_text = text "200";
            json = none;
            chunks = encode_all events ∷ [];
          })
          initial_scan).summary
        ≡ some two_scanned)
run_lem_example =
    run_lem json ids false (text "200") none events (encode_all events ∷ []) initial_scan
      (result-IsSent, (result-IsSent, (brace-IsSent, tt))) refl

abbrev half_done : BulkScan
half_done = record initial_scan { done = 1; total = 2; started = true }

half_percent : percent half_done ≡ 50
unfolding percent
half_percent = refl

abbrev many : ℕ → List Text
many zero = []
many (suc n) = text "a" ∷ many n

many_minutes : est_minutes (many 71) ≡ 5
unfolding est_minutes
many_minutes = refl

-- A small batch, then a large one, which is sent without a confirmation, and then once more.
abbrev three_openings : List ModalEvent
three_openings =
    opened (many 1) ∷ closed ∷ opened (many 21) ∷ closed ∷ opened (many 21) ∷ confirmed ∷ []

sent_three : scans_in three_openings false false ≡ 3
sent_three = refl

not_confirmed : (run_modal (opened (many 1) ∷ closed ∷ opened (many 21) ∷ []) initial_bulk).sent ≡ 2
unfolding run_modal
not_confirmed = refl

sent-scans_in_example :
    (run_modal three_openings initial_bulk).sent ≡ scans_in three_openings false false
sent-scans_in_example = sent-scans_in three_openings
