-- ===== src/PaloAlto/Single/Kept.antt =====
-- The invariant of the page of one address, and that each event keeps it.
use iop.Base.{
  All-kept, ℕ, ◌≡◌, refl, sym, ap, inl, inr, Bool, true, false, not, List, Option, none, some, Text,
  nat_eq, ◌==◌, includes, includes-filter, filter, if◌then◌else◌, arith, Bool-cases, All, All-mono,
  eq_self, nat_beq_iff,
}
use iop.Text.Trim.{trim}
use iop.Types.PaloAlto.{PaloAltoCheckResult}
use iop.CheckModal.{also_aborted, is_current}
use iop.CheckModal.Superseded.{is_live, IsStopped, stops, superseded}
use iop.PaloAlto.{is_valid_ipv4}
use iop.PaloAlto.Single.{
  CheckMode, single, bulk, SingleCheck, initial_check, abort_check, start_palo_check, check_effect,
  fire_timer, on_check_log, on_palo_result, on_palo_error, palo_caught, end_palo_check, hears,
}

-- The address in the field.
abbrev pub IsTyped : Text → Text → Type 0
IsTyped input ip = (ip ≡ trim input) × (is_valid_ipv4 ip ≡ true)

-- The field is settled: it is shown, and no timer waits for its address.
abbrev pub Settled : SingleCheck → Type 0
Settled s = (s.mode ≡ single) × (s.check_timer ≡ none)

pub record Inv (s : SingleCheck) : Type 0 where
  pub stopped : All (IsStopped s.check_abort s.aborted) s.live
  pub loading : s.check_loading ≡ true → is_live s.check_abort s.live ≡ true
  pub timer : (ip : Text) → s.check_timer ≡ some ip → (s.mode ≡ single) × IsTyped s.check_input ip
  pub current :
      Settled s
      → (k : ℕ) → s.check_abort ≡ some k
      → hears s k ≡ true
      → IsTyped s.check_input (s.asked k)
  pub shown :
      Settled s
      → (r : PaloAltoCheckResult) → s.check_result ≡ some r
      → IsTyped s.check_input r.ip_address

pub Inv-start : Inv initial_check
Inv-start = record {
  stopped = tt;
  loading = λ h. absurd (ground arith);
  timer = λ ip h. absurd (ground arith);
  current = λ h k e. absurd (ground arith);
  shown = λ h r e. absurd (ground arith);
}

-- Aborting the latest run leaves all live runs aborted.
pub IsStopped-also_aborted :
    (current next : Option ℕ) (aborted live : List ℕ)
    → All (IsStopped current aborted) live
    → All (IsStopped next (also_aborted current aborted)) live
IsStopped-also_aborted current next aborted live h =
    All-mono (IsStopped current aborted) (IsStopped next (also_aborted current aborted))
      (λ k old. ground (arith, stops current aborted k old)) live h

aborted_current :
    (current : Option ℕ) (aborted : List ℕ) (k : ℕ)
    → current ≡ some k
    → includes (also_aborted current aborted) k ≡ true
aborted_current none aborted k h = absurd (ground arith)
aborted_current (some j) aborted k h = ground (arith, eq_self k)

pub Inv-fired :
    (ip : Text) (s : SingleCheck) → s.check_timer ≡ some ip → Inv s → Inv (fire_timer ip s)
unfolding fire_timer start_palo_check
Inv-fired ip s e h = record {
  stopped = (
    ground (arith, eq_self s.next_controller),
    IsStopped-also_aborted s.check_abort (some s.next_controller) s.aborted s.live h.stopped,
  );
  loading = λ f. ground (arith, eq_self s.next_controller);
  timer = λ jp f. absurd (ground arith);
  current = λ set k f g.
      let same : (s.next_controller == k) ≡ true = ground arith in rw same (h.timer ip e).1;
  shown = λ set r f. absurd (ground arith);
}

-- The effect establishes the invariant wherever only old runs are aborted.
pub Inv-effect :
    (m : CheckMode) (s : SingleCheck)
    → s.mode ≡ m
    → s.check_timer ≡ none
    → All (IsStopped s.check_abort s.aborted) s.live
    → (s.check_loading ≡ true → is_live s.check_abort s.live ≡ true)
    → Inv (check_effect m (trim s.check_input) s)
unfolding check_effect abort_check
Inv-effect bulk s in_mode idle stopped loading = record {
  stopped = stopped;
  loading = loading;
  timer = λ jp f. absurd (ground arith);
  current = λ set. absurd (ground arith);
  shown = λ set. absurd (ground arith);
}
Inv-effect single s in_mode idle stopped loading =
    elim (Bool-cases (is_valid_ipv4 (trim s.check_input))) [
      | inl good ↦ rw good (record {
        stopped = stopped;
        loading = loading;
        timer = λ jp f.
            let same : trim s.check_input ≡ jp = ground arith in
            (in_mode, rw (sym same) (refl, good));
        current = λ set. absurd (ground arith);
        shown = λ set. absurd (ground arith);
      })
      | inr bad ↦ rw bad (record {
        stopped = IsStopped-also_aborted s.check_abort s.check_abort s.aborted s.live stopped;
        loading = λ f. absurd (ground arith);
        timer = λ jp f. absurd (ground arith);
        current = λ set k f g. absurd (ground (arith, aborted_current s.check_abort s.aborted k f));
        shown = λ set r f. absurd (ground arith);
      })
    ]

-- A run that is heard is the latest one.
heard_current :
    (s : SingleCheck) (k : ℕ) → Inv s → hears s k ≡ true → is_current s.check_abort k ≡ true
heard_current s k h g = elim (Bool-cases (is_current s.check_abort k)) [
  | inl now ↦ now
  | inr old ↦ absurd (ground (arith, superseded s.check_abort s.aborted s.live k h.stopped old))
]

is_current_iff : (o : Option ℕ) (k : ℕ) → is_current o k ≡ true → o ≡ some k
is_current_iff none k h = absurd (ground arith)
is_current_iff (some j) k h = ap some ((nat_beq_iff j k).0 h)

pub Inv-answered :
    (k : ℕ) (r : PaloAltoCheckResult) (s : SingleCheck)
    → hears s k ≡ true
    → r.ip_address ≡ s.asked k
    → Inv s
    → Inv (on_palo_result r s)
unfolding on_palo_result
Inv-answered k r s g e h = record {
  stopped = h.stopped;
  loading = h.loading;
  timer = h.timer;
  current = h.current;
  shown = λ set q f.
      let here = is_current_iff s.check_abort k (heard_current s k h g) in
      let typed_ip = h.current set k here g in
      let same : r ≡ q = ground arith in rw (sym same) (rw e typed_ip);
}

pub Inv-logged : (line : Text) (s : SingleCheck) → Inv s → Inv (on_check_log line s)
unfolding on_check_log
Inv-logged line s h = record {
  stopped = h.stopped;
  loading = h.loading;
  timer = h.timer;
  current = h.current;
  shown = h.shown;
}

pub Inv-failed : (message : Text) (s : SingleCheck) → Inv s → Inv (on_palo_error message s)
unfolding on_palo_error
Inv-failed message s h = record {
  stopped = h.stopped;
  loading = h.loading;
  timer = h.timer;
  current = h.current;
  shown = h.shown;
}

Inv-caught :
    (thrown : Option Text) (was_aborted : Bool) (s : SingleCheck)
    → Inv s
    → Inv (palo_caught thrown was_aborted s)
Inv-caught none b s h = h
Inv-caught (some m) true s h = h
Inv-caught (some m) false s h = record {
  stopped = h.stopped;
  loading = h.loading;
  timer = h.timer;
  current = h.current;
  shown = h.shown;
}

-- Loading goes on while the latest run does, once another has ended.
loading-ended :
    (current : Option ℕ) (live : List ℕ) (k : ℕ) (loading : Bool)
    → (loading ≡ true → is_live current live ≡ true)
    → (if is_current current k then false else loading) ≡ true
    → is_live current (filter (λ j. not (j == k)) live) ≡ true
loading-ended none live k loading h f = h f
loading-ended (some c) live k loading h f =
    ground (arith, includes-filter (λ (j : ℕ). not (j == k)) live c, h)

Inv-closed :
    (k : ℕ) (s : SingleCheck)
    → Inv s
    → Inv (record s {
      check_loading = if is_current s.check_abort k then false else s.check_loading;
      live = filter (λ j. not (j == k)) s.live;
    })
Inv-closed k s h = record {
  stopped = All-kept (IsStopped s.check_abort s.aborted) (λ j. not (j == k)) s.live h.stopped;
  loading = loading-ended s.check_abort s.live k s.check_loading h.loading;
  timer = h.timer;
  current = λ set j f g.
      h.current set j f (ground (arith, includes-filter (λ (i : ℕ). not (i == k)) s.live j));
  shown = h.shown;
}

Inv-thrown :
    (k : ℕ) (message : Text) (was_aborted : Bool) (s : SingleCheck)
    → Inv s
    → Inv (record (palo_caught (some message) was_aborted s) {
      check_loading = if is_current s.check_abort k then false else s.check_loading;
      live = filter (λ j. not (j == k)) s.live;
    })
Inv-thrown k m true s h = Inv-closed k s h
Inv-thrown k m false s h =
    Inv-closed k (palo_caught (some m) false s) (Inv-caught (some m) false s h)

pub Inv-ended :
    (k : ℕ) (thrown : Option Text) (s : SingleCheck) → Inv s → Inv (end_palo_check k thrown s)
unfolding end_palo_check
Inv-ended k none s h = Inv-closed k s h
Inv-ended k (some m) s h = Inv-thrown k m (includes s.aborted k) s h
