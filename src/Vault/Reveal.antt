-- ===== src/Vault/Reveal.antt =====
-- `useReveal` of frontend/src/pages/Vault/useReveal.ts: a password is shown for thirty seconds.
pub mod Hidden
use iop.Base.{
  ℕ, ◌-◌, suc, zero, Bool, true, false, List, [], ◌∷◌, ◌++◌, Option, none, some, Text, leb, nat_eq,
  ◌==◌, filter, not, if◌then◌else◌, arith, ◌+◌,
}
use iop.Api.{Response, resolved, rejected, ApiError}

pub record RevealState : Type 0 where
  pub entry_id : Option Text
  pub password : Option Text
  pub seconds_left : ℕ
  pub loading : Bool

abbrev pub hidden_state : RevealState
hidden_state = record { entry_id = none; password = none; seconds_left = 0; loading = false }

-- The state and the refs of the hook, with the intervals that the browser runs: `setInterval`
-- gives a number that was not used before, `clearInterval` stops that interval.
pub record Hook : Type 0 where
  pub reveal_state : RevealState
  pub copying_id : Option Text
  pub timer_ref : Option ℕ
  pub seconds_ref : ℕ
  pub intervals : List ℕ
  pub next_interval : ℕ

abbrev pub initial_hook : Hook
initial_hook = record {
  reveal_state = hidden_state;
  copying_id = none;
  timer_ref = none;
  seconds_ref = 0;
  intervals = [];
  next_interval = 0;
}

-- `clearInterval(id)`
abbrev pub clear_interval : ℕ → List ℕ → List ℕ
clear_interval i intervals = filter (λ j. not (j == i)) intervals

-- `if (timerRef.current) { clearInterval(timerRef.current); timerRef.current = null; }`
unfoldable pub stop_timer : Hook → Hook
stop_timer s = elim (s.timer_ref) [
  | none ↦ s
  | some i ↦ record s { timer_ref = none; intervals = clear_interval i s.intervals }
]

unfoldable pub clear_reveal : Hook → Hook
unfolding stop_timer
clear_reveal s = record (stop_timer s) { reveal_state = hidden_state }

-- `revealPassword` up to its request.
unfoldable pub start_reveal : Text → Hook → Hook
unfolding stop_timer
start_reveal entry s = record (stop_timer s) {
  reveal_state = record {
    entry_id = some entry;
    password = none;
    seconds_left = 0;
    loading = true;
  };
}

-- `Math.ceil(REVEAL_TIMEOUT_MS / 1000)`
abbrev pub reveal_seconds : ℕ
reveal_seconds = 30

-- `revealPassword` after its request for the entry.
unfoldable pub settle_reveal : Text → Response Text → Hook → Hook
settle_reveal entry (resolved password) s = record s {
  seconds_ref = reveal_seconds;
  reveal_state = record {
    entry_id = some entry;
    password = some password;
    seconds_left = reveal_seconds;
    loading = false;
  };
  timer_ref = some s.next_interval;
  intervals = s.intervals ++ s.next_interval ∷ [];
  next_interval = suc s.next_interval;
}
settle_reveal entry (rejected error) s = record s { reveal_state = hidden_state }

-- One call of the function of an interval. The second left by the ref stops at 0 here, where the
-- source counts on below it: the test `<= 0` does not tell the two apart.
unfoldable pub tick : Hook → Hook
unfolding clear_reveal
tick s =
    let left = s.seconds_ref - 1 in
    let counted = record s { seconds_ref = left } in
    if leb left 0
    then clear_reveal counted
    else record counted { reveal_state = record s.reveal_state { seconds_left = left } }

-- `copyPassword` before and after its request.
abbrev pub start_copy : Text → Hook → Hook
start_copy entry s = record s { copying_id = some entry }

abbrev pub settle_copy : Hook → Hook
settle_copy s = record s { copying_id = none }
