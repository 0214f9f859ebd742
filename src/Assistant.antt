-- ===== src/Assistant.antt =====
-- frontend/src/pages/Assistant/AssistantPage.tsx over frontend/src/api/assistant.ts. Ant Design's
-- `message` is a list of notices; `encodeURIComponent` is the parameter `encode`.
pub mod Asked
mod Tests
use iop.Base.{
  ℕ, zero, suc, Bool, true, false, not, ◌&&◌, ◌||◌, List, [], ◌∷◌, ◌++◌, map, Option, none, some,
  Text, text, text_eq, ◌==◌, filter, if◌then◌else◌,
}
use iop.Api.{ApiError, Response, resolved, rejected}
use iop.Text.Search.{is_empty}
use iop.Text.Trim.{trim}

pub data Role : Type 0 where
  user assistant : Role

-- The fields of the metadata that the page reads.
pub record Metadata : Type 0 where
  pub source : Option Text
  pub ip_address : Option Text
  pub cidr : Option Text

pub record AssistantSourceItem : Type 0 where
  pub text_shown : Text
  pub source_collection : Text
  pub source_id : Text
  pub metadata : Metadata

pub record AskResponse : Type 0 where
  pub answer : Text
  pub sources : List AssistantSourceItem

pub record HistoryMessage : Type 0 where
  pub role : Role
  pub text_said : Text
  pub sources : Option (List AssistantSourceItem)

pub record HistoryResponse : Type 0 where
  pub session_id : Text
  pub messages : List HistoryMessage

pub record SessionSummary : Type 0 where
  pub session_id : Text
  pub preview : Text
  pub last_message_at : Text
  pub message_count : ℕ
  pub is_current : Bool

pub record ChatMessage : Type 0 where
  pub role : Role
  pub text_said : Text
  pub sources : Option (List AssistantSourceItem)
  pub error : Bool

-- `asking` counts the calls of `ask` that are under way.
pub record AssistantState : Type 0 where
  pub messages : List ChatMessage
  pub input : Text
  pub loading : Bool
  pub history_loading : Bool
  pub starting_new : Bool
  pub sessions : List SessionSummary
  pub current_session_id : Option Text
  pub switching_session_id : Option Text
  pub deleting_session_id : Option Text
  pub asking : ℕ
  pub notices : List Text

abbrev pub chat_message : HistoryMessage → ChatMessage
chat_message m = record {
  role = m.role;
  text_said = m.text_said;
  sources = m.sources;
  error = false;
}

-- The effect on mount, after its request.
unfoldable pub settle_history : Response HistoryResponse → AssistantState → AssistantState
settle_history (resolved h) s = record s {
  current_session_id = some h.session_id;
  messages = map chat_message h.messages;
  history_loading = false;
}
settle_history (rejected e) s = record s { history_loading = false }

unfoldable pub settle_sessions : Response (List SessionSummary) → AssistantState → AssistantState
settle_sessions (resolved sessions) s = record s { sessions = sessions }
settle_sessions (rejected e) s = s

abbrev pub asked_message : Text → ChatMessage
asked_message question = record { role = user; text_said = question; sources = none; error = false }

-- `send` up to its request, with the question that it asks.
unfoldable pub send : AssistantState → AssistantState × Option Text
unfolding trim
send s =
    let question = trim s.input in
    if is_empty question || s.loading || s.history_loading then (s, none) else (
      record s {
        input = [];
        messages = s.messages ++ asked_message question ∷ [];
        loading = true;
        asking = suc s.asking;
      },
      some question,
    )

abbrev pub answer_message : Response AskResponse → ChatMessage
answer_message (resolved r) = record {
  role = assistant;
  text_said = r.answer;
  sources = some r.sources;
  error = false;
}
answer_message (rejected e) = record {
  role = assistant;
  text_said = elim (e.detail) [
    | some d ↦ d
    | none ↦ text "The assistant is unavailable right now."
  ];
  sources = none;
  error = true;
}

abbrev pub one_less : ℕ → ℕ
one_less zero = zero
one_less (suc n) = n

-- `send` after its request.
unfoldable pub settle_ask : Response AskResponse → AssistantState → AssistantState
settle_ask answer s = record s {
  messages = s.messages ++ answer_message answer ∷ [];
  loading = false;
  asking = one_less s.asking;
}

-- `startNewConversation` up to its request, and after it.
unfoldable pub start_new : AssistantState → AssistantState
start_new s = record s { starting_new = true }

unfoldable pub settle_new : Response (Unit {0}) → AssistantState → AssistantState
settle_new (resolved _) s = record s {
  messages = [];
  current_session_id = none;
  starting_new = false;
}
settle_new (rejected e) s = record s {
  notices = text "Couldn't start a new conversation. Try again shortly." ∷ s.notices;
  starting_new = false;
}

abbrev pub is_session : Option Text → Text → Bool
is_session none id = false
is_session (some j) id = id == j

-- `switchToSession` up to its request, with the session asked for.
unfoldable pub start_switch : Text → AssistantState → AssistantState × Option Text
start_switch id s =
    if is_session s.current_session_id id || s.loading
    then (s, none)
    else (record s { switching_session_id = some id }, some id)

abbrev pub marked : Text → SessionSummary → SessionSummary
marked id session = record session { is_current = session.session_id == id }

unfoldable pub settle_switch : Text → Response HistoryResponse → AssistantState → AssistantState
settle_switch id (resolved h) s = record s {
  current_session_id = some h.session_id;
  messages = map chat_message h.messages;
  sessions = map (marked id) s.sessions;
  switching_session_id = none;
}
settle_switch id (rejected e) s = record s {
  notices = text "Couldn't open that conversation. Try again shortly." ∷ s.notices;
  switching_session_id = none;
}

unfoldable pub start_delete : Text → AssistantState → AssistantState
start_delete id s = record s { deleting_session_id = some id }

-- `deleteConversation` after its requests: the second one, for the history, is only sent where the
-- current session, as it was when the button was clicked, was deleted.
unfoldable pub settle_delete :
    Text → Bool → Response (Unit {0}) → Response HistoryResponse → AssistantState → AssistantState
settle_delete id was_current (rejected e) history s = record s {
  notices = text "Couldn't delete that conversation. Try again shortly." ∷ s.notices;
  deleting_session_id = none;
}
settle_delete id true (resolved _) (rejected e) s = record s {
  notices = text "Couldn't delete that conversation. Try again shortly." ∷ s.notices;
  deleting_session_id = none;
}
settle_delete id true (resolved _) (resolved h) s = record s {
  current_session_id = some h.session_id;
  messages = map chat_message h.messages;
  sessions = filter (λ session. not (session.session_id == id)) s.sessions;
  deleting_session_id = none;
}
settle_delete id false (resolved _) history s = record s {
  sessions = filter (λ session. not (session.session_id == id)) s.sessions;
  deleting_session_id = none;
}

abbrev pub or_label : Option Text → Text → Text
or_label none fallback = fallback
or_label (some t) fallback = t

-- `item.metadata.source` where it counts as true.
abbrev pub truthy : Option Text → Option Text
truthy none = none
truthy (some t) = if is_empty t then none else some t

abbrev pub chip_of : Option Text → AssistantSourceItem → Text
chip_of (some source) item = source
chip_of none item = or_label item.metadata.ip_address (or_label item.metadata.cidr item.source_id)

-- `sourceChipLabel`
unfoldable pub source_chip_label : AssistantSourceItem → Text
source_chip_label item =
    chip_of
      (if item.source_collection == text "live_check" then truthy item.metadata.source else none)
      item

abbrev pub search_path : (Text → Text) → Text → Option Text → Option Text
search_path encode page none = none
search_path encode page (some value) = some (page ++ encode value)

-- `openSource`, with the path that it navigates to.
unfoldable pub open_source : (Text → Text) → AssistantSourceItem → Option Text
open_source encode item =
    let of_record =
      (item.source_collection == text "ip_records" || item.source_collection == text "live_check")
      && not (is_empty (or_label item.metadata.ip_address [])) in
    if of_record
    then search_path encode (text "/ip-records?search=") item.metadata.ip_address
    else if item.source_collection == text "subnets"
    then search_path encode (text "/subnets?search=") (truthy item.metadata.cidr)
    else none
