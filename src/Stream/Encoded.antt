-- ===== src/Stream/Encoded.antt =====
-- The reader gives back the events that the backend's generators write.
use iop.Base.{
  every, not, true, arith, ◌≡◌, refl, ap, ◌∙◌, false, List, [], ◌∷◌, ◌++◌, some, Text, text, All,
  All-append, nat_beq, ap₂,
}
use Prim.Native.String.{String}
use mathlib.Core.List.{append-nil}
use iop.Text.Search.{starts_with, is_empty}
use iop.Text.Split.{split, split-append, split-free}
use iop.Text.Trim.{trim, trim-space}
use iop.Stream.{
  SseEvent, kept, cut, parse_event, drain_all, read_chunks, read_lines, read_line, emitted,
}
use iop.Stream.Chunks.{concat, drain_all-cut, read_chunks-concat}

abbrev pub IsLine : Text → Type 0
IsLine s = All (λ c. nat_beq c 10 ≡ false) s

-- A type or data that fits on one line and has no white space around it.
abbrev pub IsField : Text → Type 0
IsField s = IsLine s × (trim s ≡ s)

abbrev pub IsSent : SseEvent → Type 0
IsSent e = IsField e.0 × IsField e.1 × (is_empty e.1 ≡ false)

abbrev event_line : SseEvent → Text
event_line e = text "event: " ++ e.0

abbrev data_line : SseEvent → Text
data_line e = text "data: " ++ e.1

-- `f"event: {type}\ndata: {data}\n\n"` of backend/app/routers, in front of what follows.
abbrev pub encode : SseEvent → Text → Text
encode e rest = event_line e ++ (10 ∷ (data_line e ++ (10 ∷ 10 ∷ rest)))

abbrev pub encode_all : List SseEvent → Text
encode_all [] = []
encode_all (e ∷ es) = encode e (encode_all es)

cut-line :
    (line tail : Text) (p : Text × Text)
    → IsLine line
    → cut tail ≡ some p
    → cut (line ++ tail) ≡ some (line ++ p.0, p.1)
unfolding cut starts_with
cut-line [] tail p h e = e
cut-line (c ∷ cs) tail p h e = rw h.0 (ap (kept c) (cut-line cs tail p h.1 e))

IsLine-text : (s : String) (t : Text) → IsLine (text s) → IsLine t → IsLine (text s ++ t)
IsLine-text s t h k = All-append (λ c. nat_beq c 10 ≡ false) (text s) t h k

event_prefix : IsLine (text "event: ")
event_prefix = (refl, (refl, (refl, (refl, (refl, (refl, (refl, tt)))))))

data_prefix : IsLine (text "data: ")
data_prefix = (refl, (refl, (refl, (refl, (refl, (refl, tt))))))

cut-encode :
    (e : SseEvent) (rest : Text)
    → IsSent e
    → cut (encode e rest) ≡ some (event_line e ++ 10 ∷ data_line e, rest)
unfolding cut starts_with
cut-encode e rest h =
    let at_data =
      cut-line (data_line e) (10 ∷ 10 ∷ rest) ([], rest)
        (IsLine-text "data: " e.1 data_prefix h.1.0) refl in
    cut-line (event_line e) (10 ∷ (data_line e ++ (10 ∷ 10 ∷ rest))) (10 ∷ data_line e, rest)
      (IsLine-text "event: " e.0 event_prefix h.0.0)
      (ap (kept 10) at_data ∙ ap (λ (t : Text). some (10 ∷ t, rest)) (append-nil (data_line e)))

parse_event-encode :
    (e : SseEvent) → IsSent e → parse_event (event_line e ++ 10 ∷ data_line e) ≡ e ∷ []
unfolding parse_event read_lines read_line starts_with
parse_event-encode e h =
    let lines : split 10 (event_line e ++ (10 ∷ data_line e)) ≡ event_line e ∷ data_line e ∷ [] =
      split-append 10 (event_line e) (data_line e) (IsLine-text "event: " e.0 event_prefix h.0.0)
      ∙ ap (λ (l : List Text). event_line e ∷ l)
          (split-free 10 (data_line e) (IsLine-text "data: " e.1 data_prefix h.1.0)) in
    ap (λ (l : List Text). emitted (read_lines (text "message", []) l)) lines
    ∙ ap (λ (f : SseEvent). emitted f)
        (ap (λ (k : Text). (k, trim (32 ∷ e.1))) (trim-space e.0 ∙ h.0.1)
          ∙ ap (λ (d : Text). (e.0, d)) (trim-space e.1 ∙ h.1.1))
    ∙ rw (h.2) refl

drain_all-empty : drain_all [] ≡ ([], [])
unfolding drain_all
drain_all-empty = refl

drain_all-encode : (es : List SseEvent) → All IsSent es → drain_all (encode_all es) ≡ (es, [])
drain_all-encode [] h = drain_all-empty
drain_all-encode (e ∷ es) h =
    drain_all-cut (encode e (encode_all es)) (event_line e ++ (10 ∷ data_line e), encode_all es)
      (cut-encode e (encode_all es) h.0)
    ∙ ap₂ (λ (a : List SseEvent) (r : List SseEvent × Text). (a ++ r.0, r.1))
        (parse_event-encode e h.0) (drain_all-encode es h.1)

-- A text without a line end is a line.
pub every-IsLine : (s : Text) → every (λ c. not (nat_beq c 10)) s ≡ true → IsLine s
every-IsLine [] h = tt
every-IsLine (c ∷ cs) h = ground (arith, every-IsLine cs)

-- However the bytes of some events are cut into chunks, the reader calls its handler with exactly
-- these events in order and leaves nothing in its buffer, where types and data fit on a line, have
-- no white space around them, and no data is empty.
pub read_chunks-encode :
    (es : List SseEvent) (chunks : List Text)
    → All IsSent es
    → concat chunks ≡ encode_all es
    → read_chunks [] chunks ≡ (es, [])
unfolding cut
read_chunks-encode es chunks h e =
    read_chunks-concat [] chunks refl ∙ ap drain_all e ∙ drain_all-encode es h
