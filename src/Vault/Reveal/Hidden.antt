-- ===== src/Vault/Reveal/Hidden.antt =====
-- A shown password always has a running interval, and is hidden when that interval has used up the
-- seconds left.
use iop.Base.{
  ℕ, ◌-◌, ◌+◌, ◌≤◌, ◌≡◌, refl, inl, inr, Bool, true, false, List, [], ◌∷◌, Option, none, some, Text,
  leb, nat_eq, ◌==◌, every, not, if◌then◌else◌, arith, includes, includes-append, eq_self,
  apply_same, Bool-cases,
}
use iop.Api.{Response, resolved, rejected}
use iop.Vault.Reveal.{
  Hook, clear_reveal, start_reveal, settle_reveal, tick, start_copy, settle_copy,
}

-- What happens to the hook. An interval calls its function only while it runs.
pub data Event : Type 0 where
  reveal_clicked : Text → Event
  reveal_answered : Text → Response Text → Event
  second_passed : ℕ → Event
  clear_clicked : Event
  copy_clicked : Text → Event
  copy_answered : Event

unfoldable pub handle : Event → Hook → Hook
unfolding start_reveal settle_reveal tick clear_reveal
handle (reveal_clicked entry) s = start_reveal entry s
handle (reveal_answered entry r) s = settle_reveal entry r s
handle (second_passed i) s = if includes s.intervals i then tick s else s
handle clear_clicked s = clear_reveal s
handle (copy_clicked entry) s = start_copy entry s
handle copy_answered s = settle_copy s

unfoldable pub run : List Event → Hook → Hook
unfolding handle
run [] s = s
run (e ∷ es) s = run es (handle e s)

-- The timer of a password that is shown: it runs, and the seconds shown are those of the ref.
abbrev pub Timed : Option Text → Option ℕ → List ℕ → ℕ → ℕ → Type 0
Timed none timer intervals left seconds = Unit
Timed (some p) none intervals left seconds = ⊥
Timed (some p) (some i) intervals left seconds =
    (includes intervals i ≡ true) × (left ≡ seconds) × (1 ≤ seconds) × (seconds ≤ 30)

abbrev pub IsTimed : Hook → Type 0
IsTimed s =
    Timed s.reveal_state.password s.timer_ref s.intervals s.reveal_state.seconds_left s.seconds_ref

Timed-counted :
    (p : Option Text) (t : Option ℕ) (is : List ℕ) (left seconds : ℕ)
    → Timed p t is left seconds
    → leb (seconds - 1) 0 ≡ false
    → Timed p t is (seconds - 1) (seconds - 1)
Timed-counted none t is left seconds h e = tt
Timed-counted (some p) none is left seconds h e = absurd h
Timed-counted (some p) (some i) is left seconds h e =
    let at_most = h.3 in (h.0, refl, ground (arith), omega (arith, at_most))

IsTimed-tick : (s : Hook) → IsTimed s → IsTimed (tick s)
unfolding tick clear_reveal
IsTimed-tick s h = elim (Bool-cases (leb (s.seconds_ref - 1) 0)) [
  | inl e ↦ rw e tt
  | inr e ↦ rw e (
      Timed-counted s.reveal_state.password s.timer_ref s.intervals s.reveal_state.seconds_left
        s.seconds_ref h e)
]

IsTimed-settle :
    (entry : Text) (r : Response Text) (s : Hook) → IsTimed s → IsTimed (settle_reveal entry r s)
unfolding settle_reveal
IsTimed-settle entry (resolved p) s h = (
  ground (
    arith,
    includes-append s.intervals (s.next_interval ∷ []) s.next_interval,
    eq_self s.next_interval,
  ),
  refl,
  omega arith,
  omega arith,
)
IsTimed-settle entry (rejected e) s h = tt

IsTimed-handle : (e : Event) (s : Hook) → IsTimed s → IsTimed (handle e s)
unfolding handle start_reveal clear_reveal
IsTimed-handle (reveal_clicked entry) s h = tt
IsTimed-handle (reveal_answered entry r) s h = IsTimed-settle entry r s h
IsTimed-handle (second_passed i) s h = elim (Bool-cases (includes s.intervals i)) [
  | inl e ↦ rw e (IsTimed-tick s h)
  | inr e ↦ rw e h
]
IsTimed-handle clear_clicked s h = tt
IsTimed-handle (copy_clicked entry) s h = h
IsTimed-handle copy_answered s h = h

-- However clicks, answers and seconds follow each other, a password is shown only while the
-- interval of the hook runs, with between one and thirty seconds left.
pub run-IsTimed : (es : List Event) (s : Hook) → IsTimed s → IsTimed (run es s)
unfolding run
run-IsTimed [] s h = h
run-IsTimed (e ∷ es) s h = run-IsTimed es (handle e s) (IsTimed-handle e s h)

abbrev pub is_answer : Event → Bool
is_answer (reveal_answered entry r) = true
is_answer e = false

abbrev is_second_of : ℕ → Event → Bool
is_second_of i (second_passed j) = j == i
is_second_of i e = false

-- The seconds of an interval.
abbrev pub seconds_of : ℕ → List Event → ℕ
seconds_of i [] = 0
seconds_of i (e ∷ es) = (if is_second_of i e then 1 else 0) + seconds_of i es

abbrev first : ℕ → Event → ℕ
first i e = if is_second_of i e then 1 else 0

-- What is shown is hidden by `i` in at most `n` seconds.
abbrev Due : Option Text → Option ℕ → List ℕ → ℕ → ℕ → ℕ → Type 0
Due none timer is seconds i n = Unit
Due (some p) timer is seconds i n = (timer ≡ some i) × (includes is i ≡ true) × (seconds ≤ n)

abbrev IsDue : ℕ → ℕ → Hook → Type 0
IsDue i n s = Due s.reveal_state.password s.timer_ref s.intervals s.seconds_ref i n

Due-start :
    (p : Option Text) (t : Option ℕ) (is : List ℕ) (left seconds i n : ℕ)
    → Timed p t is left seconds
    → t ≡ some i
    → seconds ≤ n
    → Due p t is seconds i n
Due-start none t is left seconds i n h e le = tt
Due-start (some p) none is left seconds i n h e le = absurd h
Due-start (some p) (some j) is left seconds i n h e le =
    (e, ground (arith, h.0, apply_same (λ (x : ℕ). x == i) j i), le)

Due-counted :
    (p : Option Text) (t : Option ℕ) (is : List ℕ) (seconds i n k : ℕ)
    → Due p t is seconds i n
    → k ≤ 1
    → Due p t is (seconds - 1) i (n - k)
Due-counted none t is seconds i n k h le = tt
Due-counted (some p) t is seconds i n k h le = let most = h.2 in (h.0, h.1, omega (arith, most, le))

IsDue-tick : (i n k : ℕ) (s : Hook) → IsDue i n s → k ≤ 1 → IsDue i (n - k) (tick s)
unfolding tick clear_reveal
IsDue-tick i n k s h le = elim (Bool-cases (leb (s.seconds_ref - 1) 0)) [
  | inl e ↦ rw e tt
  | inr e ↦
      rw e (Due-counted s.reveal_state.password s.timer_ref s.intervals s.seconds_ref i n k h le)
]

IsDue-equal : (i m n : ℕ) (s : Hook) → IsDue i n s → m ≡ n → IsDue i m s
IsDue-equal i m n s h e = rw e h

Due-stopped :
    (p : Option Text) (t : Option ℕ) (is : List ℕ) (seconds i n k j : ℕ)
    → Due p t is seconds i n
    → includes is j ≡ false
    → k ≡ (if j == i then 1 else 0)
    → Due p t is seconds i (n - k)
Due-stopped none t is seconds i n k j h e le = tt
Due-stopped (some p) t is seconds i n k j h e le =
    (h.0, h.1, ground (arith, h.1, h.2, apply_same (λ (x : ℕ). includes is x) j i))

IsDue-handle :
    (i n : ℕ) (e : Event) (s : Hook)
    → is_answer e ≡ false
    → IsDue i n s
    → IsDue i (n - (if is_second_of i e then 1 else 0)) (handle e s)
unfolding handle start_reveal clear_reveal
IsDue-handle i n (reveal_clicked entry) s a h = tt
IsDue-handle i n (reveal_answered entry r) s a h = cc
IsDue-handle i n (second_passed j) s a h = elim (Bool-cases (includes s.intervals j)) [
  | inl e ↦ rw e (IsDue-tick i n (if j == i then 1 else 0) s h (ground (arith)))
  | inr e ↦
      rw e
        (Due-stopped s.reveal_state.password s.timer_ref s.intervals s.seconds_ref i n _ j h e refl)
]
IsDue-handle i n clear_clicked s a h = tt
IsDue-handle i n (copy_clicked entry) s a h = IsDue-equal i (n - 0) n s h (omega arith)
IsDue-handle i n copy_answered s a h = IsDue-equal i (n - 0) n s h (omega arith)

IsDue-run :
    (i n : ℕ) (es : List Event) (s : Hook)
    → every (λ e. not (is_answer e)) es ≡ true
    → IsDue i n s
    → IsDue i (n - seconds_of i es) (run es s)
unfolding run
IsDue-run i n [] s a h = IsDue-equal i (n - 0) n s h (omega arith)
IsDue-run i n (e ∷ es) s a h =
    IsDue-equal i (n - (first i e + seconds_of i es)) (n - first i e - seconds_of i es)
      (run es (handle e s))
      (IsDue-run i (n - first i e) es (handle e s) (ground (arith))
        (IsDue-handle i n e s (ground (arith)) h))
      (omega arith)

overdue :
    (p : Option Text) (t : Option ℕ) (is : List ℕ) (left seconds i n : ℕ)
    → Timed p t is left seconds
    → Due p t is seconds i n
    → n ≡ 0
    → p ≡ none
overdue none t is left seconds i n h d z = refl
overdue (some p) none is left seconds i n h d z = absurd h
overdue (some p) (some j) is left seconds i n h d z =
    let least = h.2 in let most = d.2 in absurd (omega (arith, least, most, z))

-- Without a new answer, a password that is shown is hidden once the interval of the hook has run
-- for the seconds left, whatever else happens and whatever other intervals run.
pub run-hidden :
    (i : ℕ) (es : List Event) (s : Hook)
    → IsTimed s
    → s.timer_ref ≡ some i
    → every (λ e. not (is_answer e)) es ≡ true
    → s.seconds_ref ≤ seconds_of i es
    → (run es s).reveal_state.password ≡ none
run-hidden i es s h t a enough =
    let r = run es s in
    overdue r.reveal_state.password r.timer_ref r.intervals r.reveal_state.seconds_left
      r.seconds_ref i (s.seconds_ref - seconds_of i es) (run-IsTimed es s h)
      (IsDue-run i s.seconds_ref es s a (
        Due-start s.reveal_state.password s.timer_ref s.intervals s.reveal_state.seconds_left
          s.seconds_ref i s.seconds_ref h t (omega arith)))
      (omega (arith, enough))
