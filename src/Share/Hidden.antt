-- ===== src/Share/Hidden.antt =====
-- A password that is shown on the shared page is hidden again.
use iop.Base.{
  ℕ, suc, ◌≤◌, ◌≡◌, refl, Bool, true, false, not, ◌&&◌, List, [], ◌∷◌, Option, none, some, arith,
  if◌then◌else◌,
}
use iop.Share.{
  ShareAnswer, viewed, refused, SharePage, apply_error, is_status, is_required, settle_view,
  start_unlock, settle_unlock, reveal_effect, toggle_revealed, is_last_second, counted_down, ticked,
  share_tick,
}

pub data ShareEvent : Type 0 where
  view_answered : ShareAnswer → ShareEvent
  unlock_clicked : ShareEvent
  unlock_answered : ShareAnswer → ShareEvent
  reveal_clicked : ShareEvent
  second_passed : ShareEvent

unfoldable pub on_share : ShareEvent → SharePage → SharePage
unfolding settle_view start_unlock settle_unlock toggle_revealed share_tick
on_share (view_answered a) s = settle_view a s
on_share unlock_clicked s = start_unlock s
on_share (unlock_answered a) s = settle_unlock a s
on_share reveal_clicked s = toggle_revealed s
on_share second_passed s = share_tick s

unfoldable pub run_share : List ShareEvent → SharePage → SharePage
unfolding on_share
run_share [] s = s
run_share (e ∷ es) s = run_share es (on_share e s)

abbrev pub initial_share : SharePage
initial_share = record {
  entry = none;
  loading = true;
  error = none;
  needs_password = false;
  password_input = [];
  password_error = none;
  unlocking = false;
  revealed = false;
  countdown = none;
  ticking = false;
}

-- While the password is shown, an interval runs and one to thirty seconds are left.
abbrev pub Timed : Bool → Bool → Option ℕ → Type 0
Timed false ticking countdown = (ticking ≡ false) × (countdown ≡ none)
Timed true ticking none = ⊥
Timed true ticking (some c) = (ticking ≡ true) × (1 ≤ c) × (c ≤ 30)

abbrev IsTimed : SharePage → Type 0
IsTimed s = Timed s.revealed s.ticking s.countdown

reveal_effect-IsTimed : (b : Bool) (s : SharePage) → IsTimed (reveal_effect b s)
reveal_effect-IsTimed false s = (refl, refl)
reveal_effect-IsTimed true s = (refl, omega arith, omega arith)

counted-Timed :
    (revealed ticking : Bool) (countdown : Option ℕ)
    → Timed revealed ticking countdown
    → ticking ≡ true
    → is_last_second countdown ≡ false
    → Timed revealed ticking (counted_down countdown)
counted-Timed false t countdown h on e = absurd (ground arith)
counted-Timed true t none h on e = absurd h
counted-Timed true t (some c) h on e = (on, ground arith, ground arith)

ticked-IsTimed :
    (on last : Bool) (s : SharePage)
    → s.ticking ≡ on
    → is_last_second s.countdown ≡ last
    → IsTimed s
    → IsTimed (ticked on last s)
ticked-IsTimed false last s e f h = h
ticked-IsTimed true true s e f h = (refl, refl)
ticked-IsTimed true false s e f h = counted-Timed s.revealed s.ticking s.countdown h e f

share_tick-IsTimed : (s : SharePage) → IsTimed s → IsTimed (share_tick s)
unfolding share_tick
share_tick-IsTimed s h = ticked-IsTimed s.ticking (is_last_second s.countdown) s refl refl h

-- What an answer does not touch.
abbrev IsKept : SharePage → SharePage → Type 0
IsKept s t = (t.revealed ≡ s.revealed) × (t.ticking ≡ s.ticking) × (t.countdown ≡ s.countdown)

settle_view-IsKept : (a : ShareAnswer) (s : SharePage) → IsKept s (settle_view a s)
unfolding settle_view apply_error
settle_view-IsKept (viewed r) s = (refl, refl, refl)
settle_view-IsKept (refused e) s = kept (is_status 401 e.status && is_required e.detail)
  where
    kept :
        (b : Bool)
        → IsKept s (record (if b then record s { needs_password = true } else apply_error e s) {
          loading = false;
        })
    kept true = (refl, refl, refl)
    kept false = (refl, refl, refl)

settle_unlock-IsKept : (a : ShareAnswer) (s : SharePage) → IsKept s (settle_unlock a s)
unfolding settle_unlock
settle_unlock-IsKept (viewed r) s = (refl, refl, refl)
settle_unlock-IsKept (refused e) s = (refl, refl, refl)

kept-IsTimed : (s t : SharePage) → IsKept s t → IsTimed s → IsTimed t
kept-IsTimed s t k h = rw (k.0, k.1, k.2) h

IsTimed-on_share : (e : ShareEvent) (s : SharePage) → IsTimed s → IsTimed (on_share e s)
unfolding on_share start_unlock toggle_revealed
IsTimed-on_share (view_answered a) s h = kept-IsTimed s (settle_view a s) (settle_view-IsKept a s) h
IsTimed-on_share unlock_clicked s h = h
IsTimed-on_share (unlock_answered a) s h =
    kept-IsTimed s (settle_unlock a s) (settle_unlock-IsKept a s) h
IsTimed-on_share reveal_clicked s h = reveal_effect-IsTimed (not s.revealed) s
IsTimed-on_share second_passed s h = share_tick-IsTimed s h

IsTimed-run_share : (es : List ShareEvent) (s : SharePage) → IsTimed s → IsTimed (run_share es s)
unfolding run_share
IsTimed-run_share [] s h = h
IsTimed-run_share (e ∷ es) s h = IsTimed-run_share es (on_share e s) (IsTimed-on_share e s h)

abbrev seconds_left : Option ℕ → ℕ
seconds_left none = 0
seconds_left (some c) = c

-- Events without a click on the button, and the seconds among them.
abbrev pub IsQuiet : List ShareEvent → Type 0
IsQuiet [] = Unit
IsQuiet (reveal_clicked ∷ es) = ⊥
IsQuiet (e ∷ es) = IsQuiet es

abbrev pub seconds_in : List ShareEvent → ℕ
seconds_in [] = 0
seconds_in (second_passed ∷ es) = suc (seconds_in es)
seconds_in (e ∷ es) = seconds_in es

off_left :
    (revealed ticking : Bool) (countdown : Option ℕ) (n : ℕ)
    → Timed revealed ticking countdown
    → ticking ≡ false
    → seconds_left countdown ≤ n
off_left false t countdown n h off = rw h.1 (omega arith)
off_left true t none n h off = absurd h
off_left true t (some c) n h off = absurd (ground arith)

counted_left :
    (countdown : Option ℕ) (n : ℕ)
    → seconds_left countdown ≤ suc n
    → seconds_left (counted_down countdown) ≤ n
counted_left none n h = omega arith
counted_left (some c) n h = omega (arith, h)

ticked_left :
    (on last : Bool) (s : SharePage) (n : ℕ)
    → s.ticking ≡ on
    → IsTimed s
    → seconds_left s.countdown ≤ suc n
    → seconds_left (ticked on last s).countdown ≤ n
ticked_left false last s n e h bound = off_left s.revealed s.ticking s.countdown n h e
ticked_left true true s n e h bound = omega arith
ticked_left true false s n e h bound = counted_left s.countdown n bound

tick_left :
    (s : SharePage) (n : ℕ)
    → IsTimed s
    → seconds_left s.countdown ≤ suc n
    → seconds_left (share_tick s).countdown ≤ n
unfolding share_tick
tick_left s n h bound = ticked_left s.ticking (is_last_second s.countdown) s n refl h bound

none_left :
    (revealed ticking : Bool) (countdown : Option ℕ)
    → Timed revealed ticking countdown
    → seconds_left countdown ≤ 0
    → revealed ≡ false
none_left false t countdown h bound = refl
none_left true t none h bound = absurd h
none_left true t (some c) h bound = absurd (omega (arith, h.1, bound))

at_most :
    (revealed ticking : Bool) (countdown : Option ℕ)
    → Timed revealed ticking countdown
    → seconds_left countdown ≤ 30
at_most false t countdown h = rw h.1 (omega arith)
at_most true t none h = absurd h
at_most true t (some c) h = h.2

hidden_after :
    (es : List ShareEvent) (s : SharePage)
    → IsTimed s
    → IsQuiet es
    → seconds_left s.countdown ≤ seconds_in es
    → (run_share es s).revealed ≡ false
unfolding run_share on_share start_unlock
hidden_after [] s h quiet bound = none_left s.revealed s.ticking s.countdown h bound
hidden_after (view_answered a ∷ es) s h quiet bound =
    let k = settle_view-IsKept a s in
    hidden_after es (settle_view a s) (kept-IsTimed s (settle_view a s) k h) quiet (rw k.2 bound)
hidden_after (unlock_clicked ∷ es) s h quiet bound = hidden_after es (start_unlock s) h quiet bound
hidden_after (unlock_answered a ∷ es) s h quiet bound =
    let k = settle_unlock-IsKept a s in
    hidden_after es (settle_unlock a s) (kept-IsTimed s (settle_unlock a s) k h) quiet
      (rw k.2 bound)
hidden_after (reveal_clicked ∷ es) s h quiet bound = absurd quiet
hidden_after (second_passed ∷ es) s h quiet bound =
    hidden_after es (share_tick s) (share_tick-IsTimed s h) quiet
      (tick_left s (seconds_in es) h bound)

-- However the page is used before: once thirty seconds have passed without a click on the button,
-- the password is hidden, whatever is answered in between; and while it is shown, an interval runs
-- with one to thirty seconds left.
pub run_share-hidden :
    (before es : List ShareEvent)
    → IsQuiet es
    → 30 ≤ seconds_in es
    → let s = run_share before initial_share in
      ((run_share es s).revealed ≡ false) × Timed s.revealed s.ticking s.countdown
run_share-hidden before es quiet enough =
    let s = run_share before initial_share in
    let h = IsTimed-run_share before initial_share (refl, refl) in
    let left = at_most s.revealed s.ticking s.countdown h in
    (hidden_after es s h quiet (omega (arith, left, enough)), h)
