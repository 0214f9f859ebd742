-- ===== src/Stream/Tests.antt =====
-- Tests and witnesses for the event streams.
use iop.Base.{
  ◌≡◌, refl, true, false, List, [], ◌∷◌, none, Text, text, All, take, drop, every, not, nat_beq,
}
use iop.Text.Trim.{trim}
use iop.Text.Split.{split}
use iop.Text.Search.{starts_with, is_empty}
use iop.Stream.{SseEvent, cut, drain_all, read_chunks, parse_event, read_lines, read_line}
use iop.Stream.Encoded.{IsSent, every-IsLine, encode_all, read_chunks-encode}

abbrev events : List SseEvent
events = (text "progress", text "{}") ∷ (text "result", text "{1: 2}") ∷ []

-- The bytes of the events, cut between the two line ends of the first one.
abbrev chunks : List Text
chunks = take 26 (encode_all events) ∷ drop 26 (encode_all events) ∷ []

reads_two : read_chunks [] chunks ≡ (events, [])
unfolding read_chunks drain_all cut parse_event read_lines read_line split starts_with trim
reads_two = refl

event-IsSent :
    (kind data_text : Text)
    → every (λ c. not (nat_beq c 10)) kind ≡ true
    → every (λ c. not (nat_beq c 10)) data_text ≡ true
    → trim kind ≡ kind
    → trim data_text ≡ data_text
    → is_empty data_text ≡ false
    → IsSent (kind, data_text)
event-IsSent kind data_text h k t u e = ((every-IsLine kind h, t), (every-IsLine data_text k, u), e)

events-IsSent : All IsSent events
unfolding trim
events-IsSent = (
  event-IsSent (text "progress") (text "{}") refl refl refl refl refl,
  (event-IsSent (text "result") (text "{1: 2}") refl refl refl refl refl, tt),
)

read_chunks-encode_example : read_chunks [] chunks ≡ (events, [])
read_chunks-encode_example = read_chunks-encode events chunks events-IsSent refl

no_event : cut (text "event: x") ≡ none
unfolding cut starts_with
no_event = refl
