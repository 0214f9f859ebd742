-- ===== src/PaloAlto/Single.antt =====
-- frontend/src/pages/PaloAltoCheck/PaloAltoCheckPage.tsx: the check of one address while it is
-- typed, as a step relation. A run has the number of its AbortController; a stream that was aborted
-- gives nothing any more, and then rejects. `asked` is the body of each run's request.
pub mod Kept
pub mod Shown
use iop.Base.{
  ℕ, suc, ◌≡◌, ◌≢◌, Bool, true, false, not, ◌&&◌, List, [], ◌∷◌, ◌++◌, Option, none, some, Text,
  text, nat_eq, ◌==◌, includes, filter, if◌then◌else◌,
}
use iop.Text.Search.{is_empty}
use iop.Text.Trim.{trim}
use iop.Types.PaloAlto.{PaloAltoCheckResult}
use iop.CheckModal.{also_aborted, is_current}
use iop.PaloAlto.{is_valid_ipv4}

pub data CheckMode : Type 0 where
  single bulk : CheckMode

pub record SingleCheck : Type 0 where
  pub mode : CheckMode
  pub check_input : Text
  pub check_loading : Bool
  pub check_result : Option PaloAltoCheckResult
  pub check_error_msg : Option Text
  pub live_log : List Text
  pub check_timer : Option Text
  pub check_abort : Option ℕ
  pub next_controller : ℕ
  pub asked : ℕ → Text
  pub live : List ℕ
  pub aborted : List ℕ

abbrev pub initial_check : SingleCheck
initial_check = record {
  mode = single;
  check_input = [];
  check_loading = false;
  check_result = none;
  check_error_msg = none;
  live_log = [];
  check_timer = none;
  check_abort = none;
  next_controller = 0;
  asked = λ k. [];
  live = [];
  aborted = [];
}

-- `checkAbortRef.current?.abort()`
unfoldable pub abort_check : SingleCheck → SingleCheck
abort_check s = record s { aborted = also_aborted s.check_abort s.aborted }

-- `runPaloAltoCheck` up to its request.
unfoldable pub start_palo_check : Text → SingleCheck → SingleCheck
start_palo_check ip s = record s {
  aborted = also_aborted s.check_abort s.aborted;
  check_abort = some s.next_controller;
  next_controller = suc s.next_controller;
  asked = λ k. if s.next_controller == k then ip else s.asked k;
  live = s.next_controller ∷ s.live;
  check_loading = true;
  check_error_msg = none;
  check_result = none;
  live_log = [];
}

-- The effect on the trimmed input, after its cleanup: the timer is armed where it is an address.
unfoldable pub check_effect : CheckMode → Text → SingleCheck → SingleCheck
unfolding is_valid_ipv4 abort_check trim
check_effect bulk trimmed s = s
check_effect single trimmed s =
    let cleared = record s {
      check_result = none;
      check_error_msg = none;
      live_log = [];
      check_timer = none;
    } in
    if not (is_valid_ipv4 trimmed)
    then record (abort_check cleared) { check_loading = false }
    else record cleared { check_timer = some trimmed }

-- A change of the input, which is only shown in the single mode, with the cleanup and the effect.
unfoldable pub type_input : Text → SingleCheck → SingleCheck
unfolding check_effect trim
type_input input s =
    check_effect single (trim input) (record s { check_input = input; check_timer = none })

-- A change of the mode, with the cleanup and the effect.
unfoldable pub set_mode : CheckMode → SingleCheck → SingleCheck
unfolding check_effect trim
set_mode m s = check_effect m (trim s.check_input) (record s { mode = m; check_timer = none })

-- The timer calls `runPaloAltoCheck`.
unfoldable pub fire_timer : Text → SingleCheck → SingleCheck
unfolding start_palo_check
fire_timer ip s = start_palo_check ip (record s { check_timer = none })

unfoldable pub on_check_log : Text → SingleCheck → SingleCheck
on_check_log line s = record s { live_log = s.live_log ++ line ∷ [] }

unfoldable pub on_palo_result : PaloAltoCheckResult → SingleCheck → SingleCheck
on_palo_result r s = record s { check_result = some r }

unfoldable pub on_palo_error : Text → SingleCheck → SingleCheck
on_palo_error message s = record s { check_error_msg = some message }

-- `catch`: the error of an aborted run is not shown.
abbrev pub palo_caught : Option Text → Bool → SingleCheck → SingleCheck
palo_caught none was_aborted s = s
palo_caught (some message) true s = s
palo_caught (some message) false s = record s {
  check_error_msg = some (if is_empty message then text "PaloAlto check failed" else message);
}

-- `runPaloAltoCheck` after its stream has ended, with the error that it threw.
unfoldable pub end_palo_check : ℕ → Option Text → SingleCheck → SingleCheck
end_palo_check k thrown s =
    let told : SingleCheck = palo_caught thrown (includes s.aborted k) s in
    record told {
      check_loading = if is_current s.check_abort k then false else s.check_loading;
      live = filter (λ j. not (j == k)) s.live;
    }

abbrev pub hears : SingleCheck → ℕ → Bool
hears s k = includes s.live k && not (includes s.aborted k)

-- One event of the page. The server answers a request about the address that it was asked for.
pub data Step (s : SingleCheck) : SingleCheck → Type 0 where
  typed : (input : Text) → s.mode ≡ single → input ≢ s.check_input → Step s (type_input input s)
  switched : (m : CheckMode) → m ≢ s.mode → Step s (set_mode m s)
  fired : (ip : Text) → s.check_timer ≡ some ip → Step s (fire_timer ip s)
  logged : (k : ℕ) (line : Text) → hears s k ≡ true → Step s (on_check_log line s)
  answered :
      (k : ℕ) (r : PaloAltoCheckResult)
      → hears s k ≡ true
      → r.ip_address ≡ s.asked k
      → Step s (on_palo_result r s)
  failed : (k : ℕ) (message : Text) → hears s k ≡ true → Step s (on_palo_error message s)
  ended :
      (k : ℕ) (thrown : Option Text) → includes s.live k ≡ true → Step s (end_palo_check k thrown s)

pub data Reach : SingleCheck → Type 0 where
  start : Reach initial_check
  later : {s t : SingleCheck} → Reach s → Step s t → Reach t
