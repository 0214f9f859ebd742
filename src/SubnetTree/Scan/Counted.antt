-- ===== src/SubnetTree/Scan/Counted.antt =====
-- The scan of one subnet over any sequence of events.
use iop.Base.{
  ℕ, ◌+◌, ◌≤◌, ◌≡◌, refl, ◌∙◌, inl, inr, Bool, true, false, not, ◌&&◌, List, [], ◌∷◌, Option, none,
  some, Text, text, nat_eq, ◌==◌, includes, if◌then◌else◌, arith, Bool-cases, All, All-kept,
  eq_self,
}
use iop.Text.Search.{is_empty}
use iop.CheckModal.{is_current}
use iop.CheckModal.Superseded.{is_live, IsStopped, superseded, is_live-ended}
use iop.PaloAlto.Single.Kept.{IsStopped-also_aborted}
use iop.PaloAlto.Bulk.{CheckEvent, log_event, result_event, summary_event, error_event}
use iop.SubnetTree.Scan.{
  ScanModal, SubnetScan, start_subnet_scan, on_scan_call, scan_caught, end_subnet_scan, ScanEvent,
  scan_clicked, scan_heard, scan_ended, scan_closed, scan_hears, on_scan, run_scan,
  initial_subnet_scan,
}

abbrev pub is_scanning : Option Text → Bool
is_scanning none = false
is_scanning (some id) = true

record Inv (s : SubnetScan) : Type 0 where
  scanning : is_scanning s.scanning_subnet_id ≡ is_live s.scan_abort s.live
  stopped : All (IsStopped s.scan_abort s.aborted) s.live
  counted : s.scan_modal.found ≤ s.scan_modal.done

is_scanning-if :
    (b : Bool) (id : Option Text)
    → is_scanning (if b then none else id) ≡ (if b then false else is_scanning id)
is_scanning-if true id = refl
is_scanning-if false id = refl

counted-on_scan_call :
    (e : CheckEvent) (m : ScanModal)
    → m.found ≤ m.done
    → (on_scan_call e m).found ≤ (on_scan_call e m).done
unfolding on_scan_call
counted-on_scan_call (log_event ip line) m h = h
counted-on_scan_call (result_event r) m h = counted_one r.found
  where
    counted_one : (b : Bool) → m.found + (if b then 1 else 0) ≤ m.done + 1
    counted_one true = omega (arith, h)
    counted_one false = omega (arith, h)
counted-on_scan_call (summary_event r) m h = h
counted-on_scan_call (error_event message) m h = h

counted-scan_caught :
    (thrown : Option Text) (b : Bool) (m : ScanModal)
    → m.found ≤ m.done
    → (scan_caught thrown b m).found ≤ (scan_caught thrown b m).done
counted-scan_caught none b m h = h
counted-scan_caught (some e) true m h = h
counted-scan_caught (some e) false m h = h

Inv-on_scan : (e : ScanEvent) (s : SubnetScan) → Inv s → Inv (on_scan e s)
unfolding on_scan start_subnet_scan end_subnet_scan
Inv-on_scan (scan_clicked id cidr) s h = record {
  scanning = ground (arith, eq_self s.next_controller);
  stopped = (
    ground (arith, eq_self s.next_controller),
    IsStopped-also_aborted s.scan_abort (some s.next_controller) s.aborted s.live h.stopped,
  );
  counted = omega arith;
}
Inv-on_scan (scan_heard k e) s h = elim (Bool-cases (scan_hears s k)) [
  | inl now ↦ rw now (record {
    scanning = h.scanning;
    stopped = h.stopped;
    counted = counted-on_scan_call e s.scan_modal h.counted;
  })
  | inr never ↦ rw never h
]
Inv-on_scan (scan_ended k thrown) s h = elim (Bool-cases (includes s.live k)) [
  | inl now ↦ rw now (record {
    scanning =
        is_scanning-if (is_current s.scan_abort k) s.scanning_subnet_id
        ∙ is_live-ended s.scan_abort s.live k (is_scanning s.scanning_subnet_id) h.scanning;
    stopped = All-kept (IsStopped s.scan_abort s.aborted) (λ j. not (j == k)) s.live h.stopped;
    counted = counted-scan_caught thrown (includes s.aborted k) s.scan_modal h.counted;
  })
  | inr never ↦ rw never h
]
Inv-on_scan scan_closed s h = record {
  scanning = h.scanning;
  stopped = h.stopped;
  counted = h.counted;
}

Inv-run_scan : (es : List ScanEvent) (s : SubnetScan) → Inv s → Inv (run_scan es s)
unfolding run_scan
Inv-run_scan [] s h = h
Inv-run_scan (e ∷ es) s h = Inv-run_scan es (on_scan e s) (Inv-on_scan e s h)

-- What the end of the latest scan shows: its error, unless it was aborted, and that no subnet is
-- scanned.
abbrev pub shown_end : Option Text → Bool → SubnetScan → SubnetScan
shown_end none was_aborted s = record s { scanning_subnet_id = none }
shown_end (some message) true s = record s { scanning_subnet_id = none }
shown_end (some message) false s = record s {
  scanning_subnet_id = none;
  scan_modal = record s.scan_modal {
    error = some (if is_empty message then text "PaloAlto scan failed" else message);
  };
}

caught-shown_end :
    (thrown : Option Text) (was_aborted : Bool) (s : SubnetScan)
    → record s {
      scan_modal = scan_caught thrown was_aborted s.scan_modal;
      scanning_subnet_id = none;
    }
      ≡ shown_end thrown was_aborted s
caught-shown_end none b s = refl
caught-shown_end (some m) true s = refl
caught-shown_end (some m) false s = refl

end_subnet_scan-shown_end :
    (k : ℕ) (thrown : Option Text) (s : SubnetScan)
    → is_current s.scan_abort k ≡ true
    → record (end_subnet_scan k thrown s) { live = s.live; fetches = s.fetches }
      ≡ shown_end thrown (includes s.aborted k) s
unfolding end_subnet_scan
end_subnet_scan-shown_end k thrown s now = rw now (caught-shown_end thrown (includes s.aborted k) s)

end_subnet_scan-kept :
    (k : ℕ) (thrown : Option Text) (s : SubnetScan)
    → is_current s.scan_abort k ≡ false
    → includes s.aborted k ≡ true
    → record (end_subnet_scan k thrown s) { live = s.live; fetches = s.fetches } ≡ s
unfolding end_subnet_scan
end_subnet_scan-kept k none s old stopped = rw old refl
end_subnet_scan-kept k (some m) s old stopped = rw (old, stopped) refl

ended_as :
    (k : ℕ) (thrown : Option Text) (s : SubnetScan) (live now : Bool)
    → All (IsStopped s.scan_abort s.aborted) s.live
    → includes s.live k ≡ live
    → is_current s.scan_abort k ≡ now
    → record (if live then end_subnet_scan k thrown s else s) { live = s.live; fetches = s.fetches }
      ≡ (if now && live then shown_end thrown (includes s.aborted k) s else s)
ended_as k thrown s false true h e f = refl
ended_as k thrown s false false h e f = refl
ended_as k thrown s true true h e f = end_subnet_scan-shown_end k thrown s f
ended_as k thrown s true false h e f =
    end_subnet_scan-kept k thrown s f
      (ground (arith, e, superseded s.scan_abort s.aborted s.live k h f))

-- However scans are started, heard and closed: a subnet is marked as being scanned exactly while
-- the latest scan is live; no more addresses are counted as found than as done; what is heard
-- from a scan changes the modal only if it is the latest scan, which is live and was not aborted;
-- and the end of a scan changes no more than the list of live scans and the count of fetches,
-- unless it is the latest one: then no subnet is marked any more, and the modal shows the error
-- with which the stream ended only if the scan was not aborted.
pub run_scan-latest :
    (es : List ScanEvent) (k : ℕ) (e : CheckEvent) (thrown : Option Text)
    → let s = run_scan es initial_subnet_scan in
      (is_scanning s.scanning_subnet_id ≡ is_live s.scan_abort s.live)
      × (s.scan_modal.found ≤ s.scan_modal.done)
      × (on_scan (scan_heard k e) s ≡ (
          if is_current s.scan_abort k && scan_hears s k
          then record s { scan_modal = on_scan_call e s.scan_modal }
          else s))
      × (record (on_scan (scan_ended k thrown) s) { live = s.live; fetches = s.fetches } ≡ (
          if is_current s.scan_abort k && includes s.live k
          then shown_end thrown (includes s.aborted k) s
          else s))
unfolding on_scan
run_scan-latest es k e thrown =
    let s = run_scan es initial_subnet_scan in
    let h =
      Inv-run_scan es initial_subnet_scan
        (record { scanning = refl; stopped = tt; counted = omega arith }) in
    (
      h.scanning,
      h.counted,
      elim (Bool-cases (is_current s.scan_abort k)) [
        | inl now ↦ rw now refl
        | inr old ↦ rw old (rw (superseded s.scan_abort s.aborted s.live k h.stopped old) refl)
      ],
      ended_as k thrown s (includes s.live k) (is_current s.scan_abort k) h.stopped refl refl,
    )
