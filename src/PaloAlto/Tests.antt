-- ===== src/PaloAlto/Tests.antt =====
-- Tests and witnesses for the PaloAlto check page.
use iop.Base.{
  every, nat_beq, All, take, drop, ◌≡◌, ◌↔◌, refl, Bool, true, false, not, ◌&&◌, ◌||◌, List, [],
  ◌∷◌, ◌++◌, none, some, Text, text, text_eq, ◌==◌, length, leb, ltb, if◌then◌else◌, arith,
}
use iop.PaloAlto.Panels.{span_text}
use iop.Stream.{Reply, finished, read_sse, read_chunks}
use iop.Stream
use iop.Stream.Encoded.{IsSent, every-IsLine, encode_all}
use iop.Text.Search.{is_empty}
use iop.Text.Trim.{trim}
use iop.Text.Split.{split, split_runs}
use iop.Text.Number.{octet_text, decimal}
use iop.Address.Dotted.{dotted}
use iop.Types.PaloAlto.{PaloAltoCheckResult}
use iop.PaloAlto.{
  is_valid_ipv4, is_valid_cidr, cidr_host_count, cidr_mode, list_mode, BulkInput, bulk_ip_list,
  max_bulk_ips, scan_enabled,
}
use iop.PaloAlto.Accepted.{scan_enabled-network}
use iop.PaloAlto.Quad.{IsQuad, is_valid_ipv4-IsQuad}
use iop.PaloAlto.Single.{
  SingleCheck, single, initial_check, type_input, fire_timer, on_palo_result, Reach, start, later,
  typed, fired, answered,
}
use iop.PaloAlto.Single.Shown.{shown-typed}
use iop.CheckModal.Superseded.{is_live}
use iop.PaloAlto.Bulk.{CheckJson, BulkPage, run_bulk_scan, start_bulk_save, unless_empty}
use iop.PaloAlto.Bulk.Collected.{results_in, found_of, run_bulk_scan-encode_all}

accepts_zeros : is_valid_ipv4 (text " 010.1.2.003 ") ≡ true
unfolding is_valid_ipv4 split trim
accepts_zeros = refl

refuses_256 : is_valid_ipv4 (text "10.0.0.256") ≡ false
unfolding is_valid_ipv4 split trim
refuses_256 = refl

-- What stands behind a second slash is not looked at.
accepts_rest : is_valid_cidr (text "10.0.0.0/24/x") ≡ true
unfolding is_valid_cidr is_valid_ipv4 split trim
accepts_rest = refl

hosts_of_host : cidr_host_count (text "10.0.0.1/32") ≡ 0
unfolding cidr_host_count split trim
hosts_of_host = refl

is_valid_ipv4-IsQuad_example :
    (is_valid_ipv4 (text " 010.1.2.003 ") ≡ true) ↔ IsQuad (trim (text " 010.1.2.003 "))
is_valid_ipv4-IsQuad_example = is_valid_ipv4-IsQuad (text " 010.1.2.003 ")

reads_zeros : IsQuad (trim (text " 010.1.2.003 "))
reads_zeros = (is_valid_ipv4-IsQuad (text " 010.1.2.003 ")).0 accepts_zeros

scan_enabled-network_example :
    scan_enabled (record {
      mode = cidr_mode;
      cidr = dotted 10 140 0 0 ++ b'/' ∷ octet_text 23;
      list = text "10.0.0.1";
    })
    ≡ (leb 24 23 && not (ltb max_bulk_ips (length (bulk_ip_list (text "10.0.0.1")))))
scan_enabled-network_example =
    scan_enabled-network 10 140 0 0 (omega arith) (omega arith) (omega arith) (omega arith) 23
      (text "10.0.0.1") (omega arith)

abbrev two_addresses : BulkInput
two_addresses = record { mode = list_mode; cidr = []; list = text "10.0.0.1,\n 10.0.0.2" }

two_enabled : scan_enabled two_addresses ≡ true
unfolding scan_enabled bulk_ip_list is_valid_ipv4 split split_runs trim
two_enabled = refl

abbrev result_for : Text → Bool → PaloAltoCheckResult
result_for ip found = record {
  ip_address = ip;
  found = found;
  hostname = none;
  matches = [];
  nat_matches = [];
  security_matches = [];
  security_matches_total = 0;
  log = [];
  errors = [];
}

abbrev typed_check : SingleCheck
typed_check = type_input (text " 10.0.0.1") initial_check

abbrev fired_check : SingleCheck
fired_check = fire_timer (text "10.0.0.1") typed_check

abbrev answered_check : SingleCheck
answered_check = on_palo_result (result_for (text "10.0.0.1") true) fired_check

reaches_answer : Reach answered_check
unfolding type_input fire_timer on_palo_result is_valid_ipv4 split trim
reaches_answer =
    later
      (later (later start (typed (text " 10.0.0.1") refl (λ e. cc))) (fired (text "10.0.0.1") refl))
      (answered 0 (result_for (text "10.0.0.1") true) refl refl)

shown_answer : answered_check.check_result ≡ some (result_for (text "10.0.0.1") true)
unfolding on_palo_result
shown_answer = refl

answered_mode : (answered_check.mode ≡ single) × (answered_check.check_timer ≡ none)
unfolding type_input fire_timer on_palo_result is_valid_ipv4 split trim
answered_mode = (refl, refl)

shown-typed_example :
    ((not answered_check.check_loading || is_live answered_check.check_abort answered_check.live)
      ≡ true)
    × (text "10.0.0.1" ≡ trim answered_check.check_input)
    × (is_valid_ipv4 (text "10.0.0.1") ≡ true)
shown-typed_example =
    shown-typed (result_for (text "10.0.0.1") true) reaches_answer answered_mode.0 answered_mode.1
      shown_answer

abbrev json : CheckJson
json = record {
  log = λ t. some (text "10.0.0.1", t);
  result = λ t. if t == text "bad" then none else some (result_for t (t == text "10.0.0.1"));
  summary = λ t. none;
  message = λ t. some (some t);
}

abbrev stream : Reply
stream = record {
  ok = true;
  has_body = true;
  status_text = [];
  json = none;
  chunks =
      text "event: log\ndata: x\n\nevent: result\ndata: 10.0.0.1\n\n"
      ∷ text "event: result\ndata: bad\n\nevent: result\ndata: 10.0.0.2\n\n"
      ∷ [];
}

abbrev stream_events : List Stream.SseEvent
stream_events =
    (text "log", text "x")
    ∷ (text "result", text "10.0.0.1")
    ∷ (text "result", text "bad")
    ∷ (text "result", text "10.0.0.2")
    ∷ []

stream_read : read_sse stream ≡ finished stream_events
unfolding read_sse split trim
stream_read = refl

abbrev empty_page : BulkPage
empty_page = record {
  input = two_addresses;
  bulk_scanning = false;
  bulk_results = none;
  bulk_error_msg = none;
  bulk_saving = false;
  bulk_live_log = [];
  notices = [];
}

found_one : found_of (results_in json stream_events) ≡ text "10.0.0.1" ∷ []
found_one = refl

result-IsSent :
    (data_text : Text)
    → every (λ c. not (nat_beq c 10)) data_text ≡ true
    → trim data_text ≡ data_text
    → is_empty data_text ≡ false
    → IsSent (text "result", data_text)
unfolding trim
result-IsSent data_text h t e =
    ((every-IsLine (text "result") refl, refl), (every-IsLine data_text h, t), e)

abbrev sent_events : List Stream.SseEvent
sent_events = (text "result", text "10.0.0.1") ∷ (text "result", text "10.0.0.2") ∷ []

sent_events-IsSent : All IsSent sent_events
unfolding trim
sent_events-IsSent = (
  result-IsSent (text "10.0.0.1") refl refl refl,
  (result-IsSent (text "10.0.0.2") refl refl refl, tt),
)

run_bulk_scan-encode_all_example :
    let t =
      run_bulk_scan json
        (record {
          ok = true;
          has_body = true;
          status_text = [];
          json = none;
          chunks = take 7 (encode_all sent_events) ∷ drop 7 (encode_all sent_events) ∷ [];
        })
        empty_page in
    (t.bulk_results ≡ some (results_in json sent_events))
    × (t.bulk_scanning ≡ false)
    × ((start_bulk_save t).1 ≡ unless_empty (found_of (results_in json sent_events)))
run_bulk_scan-encode_all_example =
    run_bulk_scan-encode_all json [] none sent_events
      (take 7 (encode_all sent_events) ∷ drop 7 (encode_all sent_events) ∷ []) empty_page
      sent_events-IsSent refl

-- Ninety seconds are rounded to two minutes, and 3,570 seconds to an hour.
spans : (span_text 90 ≡ text "2 minutes") × (span_text 3570 ≡ text "1 hour")
unfolding span_text decimal
spans = (refl, refl)
