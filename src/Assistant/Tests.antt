-- ===== src/Assistant/Tests.antt =====
-- Tests and witnesses for the assistant.
use iop.Base.{◌≡◌, refl, List, [], ◌∷◌, map, none, some, text, All}
use iop.Text.Trim.{trim}
use iop.Api.{resolved}
use iop.Assistant.{AssistantSourceItem, source_chip_label}
use iop.Assistant.Asked.{
  AssistantEvent, history_answered, typed, send_clicked, ask_answered, new_clicked, new_answered,
  run_assistant, initial_assistant, one_if, IsQuestion, run_assistant-IsQuestion,
}

-- A new conversation is started before the question of the old one is answered.
abbrev new_before_answer : List AssistantEvent
new_before_answer =
    history_answered (resolved (record { session_id = text "s"; messages = [] }))
    ∷ typed (text " who? ")
    ∷ send_clicked
    ∷ send_clicked
    ∷ new_clicked
    ∷ new_answered (resolved tt)
    ∷ ask_answered (resolved (record { answer = text "me"; sources = [] }))
    ∷ []

asked_once : (run_assistant new_before_answer initial_assistant).1 ≡ text "who?" ∷ []
unfolding run_assistant trim
asked_once = refl

-- The answer then stands in the new conversation, without its question.
answer_misplaced :
    map (λ m. m.text_said) (run_assistant new_before_answer initial_assistant).0.messages
    ≡ text "me" ∷ []
unfolding run_assistant trim
answer_misplaced = refl

run_assistant-IsQuestion_example :
    let t = run_assistant new_before_answer initial_assistant in
    (t.0.asking ≡ one_if t.0.loading) × All IsQuestion t.1
run_assistant-IsQuestion_example = run_assistant-IsQuestion new_before_answer

abbrev live_item : AssistantSourceItem
live_item = record {
  text_shown = [];
  source_collection = text "live_check";
  source_id = text "x";
  metadata = record {
    source = some (text "Zabbix");
    ip_address = some (text "10.0.0.1");
    cidr = none;
  };
}

label_of_source : source_chip_label live_item ≡ text "Zabbix"
unfolding source_chip_label
label_of_source = refl
