-- ===== src/Stream.antt =====
-- Server-sent events: `readSSE` of frontend/src/api/integrations.ts. The texts that the decoder
-- gives for the chunks of the body are an argument.
pub mod Chunks
pub mod Encoded
mod Tests
use iop.Base.{
  ℕ, Bool, true, false, not, ◌&&◌, List, [], ◌∷◌, ◌++◌, Option, none, some, Text, text, length,
  drop, suc, zero, if◌then◌else◌,
}
use iop.Text.Search.{is_empty, starts_with}
use iop.Text.Split.{split}
use iop.Text.Trim.{trim}

-- An event type with its data.
abbrev pub SseEvent : Type 0
SseEvent = Text × Text

abbrev pub kept : ℕ → Option (Text × Text) → Option (Text × Text)
kept c none = none
kept c (some p) = some (c ∷ p.0, p.1)

-- `buffer.indexOf("\n\n")`, with the slices of the buffer before it and behind it.
unfoldable pub cut : Text → Option (Text × Text)
unfolding starts_with
cut [] = none
cut (c ∷ cs) =
    let later = kept c (cut cs) in
    if starts_with (c ∷ cs) (10 ∷ 10 ∷ []) then some ([], drop 2 (c ∷ cs)) else later

-- One line of an event, over the type and the data.
unfoldable pub read_line : SseEvent → Text → SseEvent
unfolding starts_with
read_line (kind, data_text) line =
    if starts_with line (text "event:")
    then (trim (drop 6 line), data_text)
    else if starts_with line (text "data:")
    then (kind, data_text ++ trim (drop 5 line))
    else (kind, data_text)

unfoldable pub read_lines : SseEvent → List Text → SseEvent
unfolding read_line
read_lines e [] = e
read_lines e (line ∷ lines) = read_lines (read_line e line) lines

-- `if (data) onEvent(eventType, data)`
abbrev pub emitted : SseEvent → List SseEvent
emitted e = if is_empty e.1 then [] else e ∷ []

unfoldable pub parse_event : Text → List SseEvent
unfolding read_lines split
parse_event raw = emitted (read_lines (text "message", []) (split 10 raw))

-- The inner loop: the events of a buffer, and what is left in it.
unfoldable pub drain : ℕ → Text → List SseEvent × Text
unfolding cut parse_event
drain zero buffer = ([], buffer)
drain (suc fuel) buffer = elim (cut buffer) [
  | none ↦ ([], buffer)
  | some p ↦ let rest = drain fuel p.1 in (parse_event p.0 ++ rest.0, rest.1)
]

-- The inner loop with enough fuel: each round takes two code units.
unfoldable pub drain_all : Text → List SseEvent × Text
unfolding drain
drain_all buffer = drain (length buffer) buffer

-- The outer loop, over the decoded chunks.
unfoldable pub read_chunks : Text → List Text → List SseEvent × Text
unfolding drain_all
read_chunks buffer [] = ([], buffer)
read_chunks buffer (chunk ∷ chunks) =
    let now = drain_all (buffer ++ chunk) in
    let rest = read_chunks now.1 chunks in (now.0 ++ rest.0, rest.1)

-- The answer to the request: the body's chunks, and the body read as JSON, which is missing where
-- it cannot be read and has an optional `detail`.
pub record Reply : Type 0 where
  pub ok : Bool
  pub has_body : Bool
  pub status_text : Text
  pub json : Option (Option Text)
  pub chunks : List Text

pub data Outcome : Type 0 where
  thrown : Text → Outcome
  finished : List SseEvent → Outcome

abbrev pub request_failed : Text → Text
request_failed status = text "Stream request failed (" ++ status ++ text ")"

abbrev pub detail_of : Option (Option Text) → Text → Text
detail_of none fallback = fallback
detail_of (some none) fallback = fallback
detail_of (some (some d)) fallback = d

unfoldable pub read_sse : Reply → Outcome
unfolding read_chunks
read_sse res =
    if not (res.ok && res.has_body)
    then thrown (detail_of res.json (request_failed res.status_text))
    else finished (read_chunks [] res.chunks).0
