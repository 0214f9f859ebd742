-- ===== src/Assistant/Asked.antt =====
-- The questions that the assistant is asked over any sequence of events.
use iop.Base.{
  ℕ, zero, suc, ◌≡◌, refl, inl, inr, Bool, true, false, ◌||◌, List, [], ◌∷◌, ◌++◌, Option, none,
  some, Text, arith, All, All-append, Bool-cases, if◌then◌else◌, ltb,
}
use iop.Api.{Response, resolved, rejected}
use iop.Text.Search.{is_empty}
use iop.Text.Trim.{trim, trim-trim}
use iop.Assistant.{
  AskResponse, HistoryResponse, SessionSummary, AssistantState, settle_history, settle_sessions,
  send, one_less, is_session, settle_ask, start_new, settle_new, start_switch, settle_switch,
  start_delete, settle_delete,
}

-- A question is answered only while one is under way.
pub data AssistantEvent : Type 0 where
  history_answered : Response HistoryResponse → AssistantEvent
  sessions_answered : Response (List SessionSummary) → AssistantEvent
  typed : Text → AssistantEvent
  send_clicked : AssistantEvent
  ask_answered : Response AskResponse → AssistantEvent
  new_clicked : AssistantEvent
  new_answered : Response (Unit {0}) → AssistantEvent
  switch_clicked : Text → AssistantEvent
  switch_answered : Text → Response HistoryResponse → AssistantEvent
  delete_clicked : Text → AssistantEvent
  delete_answered : Text → Bool → Response (Unit {0}) → Response HistoryResponse → AssistantEvent

-- The questions that a handler sends.
abbrev pub asked_of : Option Text → List Text
asked_of none = []
asked_of (some q) = q ∷ []

unfoldable pub on_assistant : AssistantEvent → AssistantState → AssistantState × List Text
unfolding settle_history settle_sessions send settle_ask start_new settle_new start_switch
    settle_switch start_delete settle_delete
on_assistant (history_answered a) s = (settle_history a s, [])
on_assistant (sessions_answered a) s = (settle_sessions a s, [])
on_assistant (typed t) s = (record s { input = t }, [])
on_assistant send_clicked s = ((send s).0, asked_of (send s).1)
on_assistant (ask_answered a) s = (if ltb 0 s.asking then settle_ask a s else s, [])
on_assistant new_clicked s = (start_new s, [])
on_assistant (new_answered a) s = (settle_new a s, [])
on_assistant (switch_clicked id) s = ((start_switch id s).0, [])
on_assistant (switch_answered id a) s = (settle_switch id a s, [])
on_assistant (delete_clicked id) s = (start_delete id s, [])
on_assistant (delete_answered id was_current a h) s = (settle_delete id was_current a h s, [])

unfoldable pub run_assistant : List AssistantEvent → AssistantState → AssistantState × List Text
unfolding on_assistant
run_assistant [] s = (s, [])
run_assistant (e ∷ es) s =
    let now = on_assistant e s in let rest = run_assistant es now.0 in (rest.0, now.1 ++ rest.1)

abbrev pub initial_assistant : AssistantState
initial_assistant = record {
  messages = [];
  input = [];
  loading = false;
  history_loading = true;
  starting_new = false;
  sessions = [];
  current_session_id = none;
  switching_session_id = none;
  deleting_session_id = none;
  asking = 0;
  notices = [];
}

abbrev pub one_if : Bool → ℕ
one_if true = 1
one_if false = 0

-- The page is loading exactly while one question is under way, and never more than one is.
abbrev IsAsking : AssistantState → Type 0
IsAsking s = s.asking ≡ one_if s.loading

abbrev pub IsQuestion : Text → Type 0
IsQuestion q = (is_empty q ≡ false) × (trim q ≡ q)

idle_count : (n : ℕ) (b : Bool) → n ≡ one_if b → b ≡ false → suc n ≡ 1
idle_count n true h e = absurd (ground arith)
idle_count n false h e = omega (arith, h)

none_left : (n : ℕ) (b : Bool) → n ≡ one_if b → one_less n ≡ 0
none_left zero b h = refl
none_left (suc n) true h = omega (arith, h)
none_left (suc n) false h = absurd (omega (arith, h))

send-IsAsking :
    (s : AssistantState) → IsAsking s → IsAsking (send s).0 × All IsQuestion (asked_of (send s).1)
unfolding send
send-IsAsking s h = elim (Bool-cases (is_empty (trim s.input) || s.loading || s.history_loading)) [
  | inl no_send ↦ rw no_send (h, tt)
  | inr free ↦
      rw free
        (idle_count s.asking s.loading h (ground arith), ((ground arith, trim-trim s.input), tt))
]

settle_ask-IsAsking :
    (a : Response AskResponse) (s : AssistantState)
    → IsAsking s
    → IsAsking (if ltb 0 s.asking then settle_ask a s else s)
unfolding settle_ask
settle_ask-IsAsking a s h = elim (Bool-cases (ltb 0 s.asking)) [
  | inl one ↦ rw one (none_left s.asking s.loading h)
  | inr zero_asked ↦ rw zero_asked h
]

start_switch-IsAsking :
    (id : Text) (s : AssistantState) → IsAsking s → IsAsking (start_switch id s).0
unfolding start_switch
start_switch-IsAsking id s h = elim (Bool-cases (is_session s.current_session_id id || s.loading)) [
  | inl refused ↦ rw refused h
  | inr free ↦ rw free h
]

IsAsking-on_assistant :
    (e : AssistantEvent) (s : AssistantState)
    → IsAsking s
    → IsAsking (on_assistant e s).0 × All IsQuestion (on_assistant e s).1
unfolding on_assistant settle_history settle_sessions start_new settle_new settle_switch
    start_delete settle_delete
IsAsking-on_assistant (history_answered (resolved r)) s h = (h, tt)
IsAsking-on_assistant (history_answered (rejected e)) s h = (h, tt)
IsAsking-on_assistant (sessions_answered (resolved r)) s h = (h, tt)
IsAsking-on_assistant (sessions_answered (rejected e)) s h = (h, tt)
IsAsking-on_assistant (typed t) s h = (h, tt)
IsAsking-on_assistant send_clicked s h = send-IsAsking s h
IsAsking-on_assistant (ask_answered a) s h = (settle_ask-IsAsking a s h, tt)
IsAsking-on_assistant new_clicked s h = (h, tt)
IsAsking-on_assistant (new_answered (resolved r)) s h = (h, tt)
IsAsking-on_assistant (new_answered (rejected e)) s h = (h, tt)
IsAsking-on_assistant (switch_clicked id) s h = (start_switch-IsAsking id s h, tt)
IsAsking-on_assistant (switch_answered id (resolved r)) s h = (h, tt)
IsAsking-on_assistant (switch_answered id (rejected e)) s h = (h, tt)
IsAsking-on_assistant (delete_clicked id) s h = (h, tt)
IsAsking-on_assistant (delete_answered id b (rejected e) r) s h = (h, tt)
IsAsking-on_assistant (delete_answered id true (resolved u) (rejected e)) s h = (h, tt)
IsAsking-on_assistant (delete_answered id true (resolved u) (resolved r)) s h = (h, tt)
IsAsking-on_assistant (delete_answered id false (resolved u) r) s h = (h, tt)

run_assistant_lem :
    (es : List AssistantEvent) (s : AssistantState)
    → IsAsking s
    → IsAsking (run_assistant es s).0 × All IsQuestion (run_assistant es s).1
unfolding run_assistant
run_assistant_lem [] s h = (h, tt)
run_assistant_lem (e ∷ es) s h =
    let now = IsAsking-on_assistant e s h in
    let rest = run_assistant_lem es (on_assistant e s).0 now.0 in
    (
      rest.0,
      All-append IsQuestion (on_assistant e s).1 (run_assistant es (on_assistant e s).0).1 now.1
          rest.1,
    )

-- Over any sequence of events, one question is under way while the page is loading and none
-- otherwise, and each question that is asked is not empty and has no white space around it.
pub run_assistant-IsQuestion :
    (es : List AssistantEvent)
    → let t = run_assistant es initial_assistant in
      (t.0.asking ≡ one_if t.0.loading) × All IsQuestion t.1
run_assistant-IsQuestion es = run_assistant_lem es initial_assistant refl
