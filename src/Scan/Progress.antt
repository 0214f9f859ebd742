-- ===== src/Scan/Progress.antt =====
-- The progress bar of frontend/src/pages/NetworkScan/NetworkScanPage.tsx over any sequence of the
-- events that touch it.
use iop.Base.{ℕ, ◌≤◌, List, [], ◌∷◌, Option, none, some, arith, inl, inr, Bool-cases}
use iop.Scan.Page.{
  Page, Job, review_job, auto_job, Answer, start_scan, advance, tick_progress, reset_progress,
  settle_scan, is_none,
}
use iop.Api.{resolved, rejected}
use iop.Scan.Cidrs.{parse_cidrs}

-- What the running timer has reached, and what the bar shows meanwhile.
abbrev pub IsRunning : Option ℕ → ℕ → Type 0
IsRunning none shown = Unit
IsRunning (some current) shown = (current ≤ 9300) × (shown ≤ 93)

-- The bar never exceeds 100 per cent, and not 93 while a scan's timer runs.
pub record IsProgress (p : Page) : Type 0 where
  pub shown : p.progress ≤ 100
  pub running : IsRunning p.timer p.progress

pub data ProgressEvent : Type 0 where
  scan_clicked : ProgressEvent
  timer_ticked : ℕ → ProgressEvent
  bar_reset : ProgressEvent
  scan_settled : (job : Job) → Answer job → ProgressEvent

abbrev pub apply : ProgressEvent → Page → Page
apply scan_clicked p = (start_scan p).0
apply (timer_ticked draw) p = tick_progress draw p
apply bar_reset p = reset_progress p
apply (scan_settled job answer) p = settle_scan job answer p

abbrev pub run : List ProgressEvent → Page → Page
run [] p = p
run (e ∷ es) p = run es (apply e p)

start_scan-IsProgress : (p : Page) → IsProgress p → IsProgress (start_scan p).0
unfolding start_scan
start_scan-IsProgress p h = elim (Bool-cases (is_none (parse_cidrs p.cidrs_text))) [
  | inl e ↦ rw e (record { shown = h.shown; running = h.running })
  | inr e ↦ rw e (record { shown = omega arith; running = (omega arith, omega arith) })
]

advance-IsProgress :
    (o : Option ℕ) (draw : ℕ) (p : Page) → IsProgress p → IsProgress (advance o draw p)
unfolding advance
advance-IsProgress none draw p h = h
advance-IsProgress (some c) draw p h = record {
  shown = omega arith;
  running = (omega arith, omega arith);
}

settle_scan-IsProgress : (job : Job) (a : Answer job) (p : Page) → IsProgress (settle_scan job a p)
unfolding settle_scan
settle_scan-IsProgress (review_job c m s) (resolved rs) p = record {
  shown = omega arith;
  running = tt;
}
settle_scan-IsProgress (review_job c m s) (rejected e) p = record {
  shown = omega arith;
  running = tt;
}
settle_scan-IsProgress (auto_job r) (resolved rs) p = record { shown = omega arith; running = tt }
settle_scan-IsProgress (auto_job r) (rejected e) p = record { shown = omega arith; running = tt }

apply-IsProgress : (e : ProgressEvent) (p : Page) → IsProgress p → IsProgress (apply e p)
unfolding tick_progress
apply-IsProgress scan_clicked p h = start_scan-IsProgress p h
apply-IsProgress (timer_ticked draw) p h = advance-IsProgress p.timer draw p h
apply-IsProgress bar_reset p h = record { shown = omega arith; running = reset p.timer h.running }
  where
    reset : (o : Option ℕ) → IsRunning o p.progress → IsRunning o 0
    reset none r = tt
    reset (some c) r = (r.0, omega arith)
apply-IsProgress (scan_settled job answer) p h = settle_scan-IsProgress job answer p

-- Over any sequence of scans started and settled, timer ticks and resets, the bar stays at 100 per
-- cent or less, and at 93 or less while a timer runs, whatever the random draws.
pub run-IsProgress : (es : List ProgressEvent) (p : Page) → IsProgress p → IsProgress (run es p)
run-IsProgress [] p h = h
run-IsProgress (e ∷ es) p h = run-IsProgress es (apply e p) (apply-IsProgress e p h)
