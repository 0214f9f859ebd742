-- ===== src/Stream/Chunks.antt =====
-- The events of a stream do not depend on how its body is cut into chunks.
use iop.Base.{
  ℕ, ◌≤◌, ◌<◌, ◌≡◌, refl, sym, ap, ◌∙◌, inl, inr, Bool, List, [], ◌∷◌, ◌++◌, Option, none, some,
  Text, length, suc, zero, arith, Bool-cases, Option-cases,
}
use mathlib.Core.List.{append_assoc, append-nil}
use iop.Text.Search.{starts_with}
use iop.Stream.{SseEvent, kept, cut, parse_event, drain, drain_all, read_chunks}

abbrev pub concat : List Text → Text
concat [] = []
concat (t ∷ ts) = t ++ concat ts

-- A blank line stays the first one when more text comes.
abbrev IsPart : Option (Text × Text) → Text → Text → Text → Type 0
IsPart none whole xs ys = Unit
IsPart (some p) whole xs ys = (cut whole ≡ some (p.0, p.1 ++ ys)) × (length p.1 < length xs)

IsPart-kept :
    (c : ℕ) (o : Option (Text × Text)) (whole xs ys : Text)
    → cut (c ∷ whole) ≡ kept c (cut whole)
    → IsPart o whole xs ys
    → IsPart (kept c o) (c ∷ whole) (c ∷ xs) ys
IsPart-kept c none whole xs ys later h = tt
IsPart-kept c (some p) whole xs ys later h =
    let less = h.1 in (later ∙ ap (kept c) h.0, omega (arith, less))

abbrev is_blank : ℕ → ℕ → Bool
is_blank c d = starts_with (c ∷ d ∷ []) (10 ∷ 10 ∷ [])

cut-append : (xs ys : Text) → IsPart (cut xs) (xs ++ ys) xs ys
unfolding cut starts_with
cut-append [] ys = tt
cut-append (c ∷ []) ys = ground arith
cut-append (c ∷ d ∷ cs) ys = elim (Bool-cases (is_blank c d)) [
  | inl e ↦ rw e (rw e refl, omega arith)
  | inr e ↦
      rw e (
        IsPart-kept c (cut (d ∷ cs)) (d ∷ cs ++ ys) (d ∷ cs) ys (rw e refl)
          (cut-append (d ∷ cs) ys))
]

IsPart-less :
    (o : Option (Text × Text)) (whole xs ys : Text) (p : Text × Text)
    → IsPart o whole xs ys
    → o ≡ some p
    → (cut whole ≡ some (p.0, p.1 ++ ys)) × (length p.1 < length xs)
IsPart-less none whole xs ys p h e = cc
IsPart-less (some q) whole xs ys p h e = let same : p ≡ q = cc in rw same h

-- What comes behind a blank line does not move it, and the slice behind it is shorter.
cut-part :
    (xs ys : Text) (p : Text × Text)
    → cut xs ≡ some p
    → (cut (xs ++ ys) ≡ some (p.0, p.1 ++ ys)) × (length p.1 < length xs)
cut-part xs ys p e = IsPart-less (cut xs) (xs ++ ys) xs ys p (cut-append xs ys) e

drain-none : (n : ℕ) (xs : Text) → cut xs ≡ none → drain n xs ≡ ([], xs)
unfolding drain
drain-none zero xs e = refl
drain-none (suc n) xs e = rw (drain, e) refl

drain-some :
    (n : ℕ) (xs : Text) (p : Text × Text)
    → cut xs ≡ some p
    → drain (suc n) xs ≡ (parse_event p.0 ++ (drain n p.1).0, (drain n p.1).1)
unfolding drain
drain-some n xs p e = rw (drain, e) refl

-- Fuel beyond the length changes nothing.
drain-enough :
    (n m : ℕ) (buffer : Text)
    → length buffer ≤ n
    → length buffer ≤ m
    → drain n buffer ≡ drain m buffer
unfolding drain
drain-enough zero zero buffer h k = refl
drain-enough zero (suc m) [] h k = refl
drain-enough zero (suc m) (c ∷ cs) h k = absurd (omega (arith, h))
drain-enough (suc n) zero [] h k = refl
drain-enough (suc n) zero (c ∷ cs) h k = absurd (omega (arith, k))
drain-enough (suc n) (suc m) buffer h k = elim (Option-cases (cut buffer)) [
  | inl e ↦ drain-none (suc n) buffer e ∙ sym (drain-none (suc m) buffer e)
  | inr (p, e) ↦
      let less = (cut-part buffer [] p e).1 in
      drain-some n buffer p e
      ∙ ap (λ (r : List SseEvent × Text). (parse_event p.0 ++ r.0, r.1))
          (drain-enough n m p.1 (omega (arith, h, less)) (omega (arith, k, less)))
      ∙ sym (drain-some m buffer p e)
]

-- One round of the inner loop.
pub drain_all-cut :
    (buffer : Text) (p : Text × Text)
    → cut buffer ≡ some p
    → drain_all buffer ≡ (parse_event p.0 ++ (drain_all p.1).0, (drain_all p.1).1)
unfolding drain_all drain
drain_all-cut [] p e = cc
drain_all-cut (c ∷ cs) p e =
    let less = (cut-part (c ∷ cs) [] p e).1 in
    drain-some (length cs) (c ∷ cs) p e
    ∙ ap (λ (r : List SseEvent × Text). (parse_event p.0 ++ r.0, r.1))
        (drain-enough (length cs) (length p.1) p.1 (omega (arith, less)) (omega arith))

abbrev after : List SseEvent × Text → Text → List SseEvent × Text
after d ys = (d.0 ++ (drain_all (d.1 ++ ys)).0, (drain_all (d.1 ++ ys)).1)

drain-append : (n : ℕ) (xs ys : Text) → length xs ≤ n → drain_all (xs ++ ys) ≡ after (drain n xs) ys
unfolding drain
drain-append zero xs ys h = refl
drain-append (suc n) xs ys h = elim (Option-cases (cut xs)) [
  | inl e ↦ ap (λ (d : List SseEvent × Text). after d ys) (sym (drain-none (suc n) xs e))
  | inr (p, e) ↦
      let part = cut-part xs ys p e in
      let less = part.1 in
      drain_all-cut (xs ++ ys) (p.0, p.1 ++ ys) part.0
      ∙ ap (λ (r : List SseEvent × Text). (parse_event p.0 ++ r.0, r.1))
          (drain-append n p.1 ys (omega (arith, h, less)))
      ∙ ap (λ (l : List SseEvent). (l, (drain_all ((drain n p.1).1 ++ ys)).1))
          (sym
            (append_assoc (parse_event p.0) (drain n p.1).0 (drain_all ((drain n p.1).1 ++ ys)).0))
      ∙ ap (λ (d : List SseEvent × Text). after d ys) (sym (drain-some n xs p e))
]

-- A buffer that has been drained holds no event.
drain-idle : (n : ℕ) (xs : Text) → length xs ≤ n → cut (drain n xs).1 ≡ none
unfolding drain
drain-idle zero [] h = refl
drain-idle zero (c ∷ cs) h = absurd (omega (arith, h))
drain-idle (suc n) xs h = elim (Option-cases (cut xs)) [
  | inl e ↦ ap (λ (d : List SseEvent × Text). cut d.1) (drain-none (suc n) xs e) ∙ e
  | inr (p, e) ↦
      let less = (cut-part xs [] p e).1 in
      ap (λ (d : List SseEvent × Text). cut d.1) (drain-some n xs p e)
      ∙ drain-idle n p.1 (omega (arith, h, less))
]

-- From a buffer without a whole event, the events and what is left do not depend on how the body
-- is cut into chunks: they are those of the chunks joined.
pub read_chunks-concat :
    (buffer : Text) (chunks : List Text)
    → cut buffer ≡ none
    → read_chunks buffer chunks ≡ drain_all (buffer ++ concat chunks)
unfolding read_chunks drain_all
read_chunks-concat buffer [] h = sym (
    drain-none (length (buffer ++ [])) (buffer ++ []) (ap cut (append-nil buffer) ∙ h)
    ∙ ap (λ (t : Text). ([], t)) (append-nil buffer))
read_chunks-concat buffer (chunk ∷ chunks) h =
    let d = drain_all (buffer ++ chunk) in
    ap (λ (r : List SseEvent × Text). (d.0 ++ r.0, r.1))
      (read_chunks-concat d.1 chunks
        (drain-idle (length (buffer ++ chunk)) (buffer ++ chunk) (omega arith)))
    ∙ sym (
        ap drain_all (sym (append_assoc buffer chunk (concat chunks)))
        ∙ drain-append (length (buffer ++ chunk)) (buffer ++ chunk) (concat chunks) (omega arith))
