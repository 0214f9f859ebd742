-- ===== src/Text/Split.antt =====
-- `s.split(sep)` for a separator of one code unit, `s.split(/[\n,]+/)`, and `join`.
use iop.Base.{
  ℕ, ◌≡◌, refl, sym, ap, ap₂, ◌∙◌, inl, inr, Bool, true, false, ◌||◌, List, [], ◌∷◌, ◌++◌, Text,
  nat_beq, nat_beq_iff, if◌then◌else◌, All, Bool-cases,
}

-- Puts a code unit in front of the first part.
unfoldable pub push : ℕ → List Text → List Text
push c [] = (c ∷ []) ∷ []
push c (p ∷ ps) = (c ∷ p) ∷ ps

-- `s.split(sep)`: there is always a first part.
unfoldable pub split : ℕ → Text → List Text
unfolding push
split sep [] = [] ∷ []
split sep (c ∷ cs) = let rest = split sep cs in if nat_beq c sep then [] ∷ rest else push c rest

-- A newline or a comma.
unfoldable pub is_delimiter : ℕ → Bool
is_delimiter c = nat_beq c 10 || nat_beq c b','

-- `s.split(/[\n,]+/)`, where `run` says that the code unit before was a delimiter.
unfoldable pub split_runs_from : Bool → Text → List Text
unfolding push is_delimiter
split_runs_from run [] = [] ∷ []
split_runs_from run (c ∷ cs) =
    let after = split_runs_from true cs in
    let rest = split_runs_from false cs in
    if is_delimiter c then (if run then after else [] ∷ after) else push c rest

unfoldable pub split_runs : Text → List Text
unfolding split_runs_from
split_runs s = split_runs_from false s

-- `parts.join(sep)` for a separator of one code unit.
unfoldable pub join : ℕ → List Text → Text
join sep [] = []
join sep (p ∷ []) = p
join sep (p ∷ q ∷ ps) = p ++ sep ∷ join sep (q ∷ ps)

-- A text without a separator is one part.
pub split-free : (sep : ℕ) (s : Text) → All (λ c. nat_beq c sep ≡ false) s → split sep s ≡ s ∷ []
unfolding split
split-free sep [] h = refl
split-free sep (c ∷ cs) h = rw (h.0, split-free sep cs h.1)

-- A part without a separator that a separator follows is split off.
pub split-append :
    (sep : ℕ) (s rest : Text)
    → All (λ c. nat_beq c sep ≡ false) s
    → split sep (s ++ sep ∷ rest) ≡ s ∷ split sep rest
unfolding split
split-append sep [] rest h = rw ((nat_beq_iff sep sep).1 refl)
split-append sep (c ∷ cs) rest h = rw (h.0, split-append sep cs rest h.1)

join-push : (sep c : ℕ) (ps : List Text) → join sep (push c ps) ≡ c ∷ join sep ps
unfolding push join
join-push sep c [] = refl
join-push sep c (p ∷ []) = refl
join-push sep c (p ∷ q ∷ ps) = refl

join-after_push :
    (sep c : ℕ) (ps : List Text) → join sep ([] ∷ push c ps) ≡ sep ∷ join sep (push c ps)
unfolding push join
join-after_push sep c [] = refl
join-after_push sep c (p ∷ ps) = refl

-- An empty first part puts a separator in front.
join-empty_part : (sep : ℕ) (s : Text) → join sep ([] ∷ split sep s) ≡ sep ∷ join sep (split sep s)
unfolding split join
join-empty_part sep [] = refl
join-empty_part sep (c ∷ cs) = elim (Bool-cases (nat_beq c sep)) [
  | inl e ↦ rw e refl
  | inr e ↦ rw e (join-after_push sep c (split sep cs))
]

-- The parts of a text with the separator between them are the text.
pub join-split : (sep : ℕ) (s : Text) → join sep (split sep s) ≡ s
unfolding split join
join-split sep [] = refl
join-split sep (c ∷ cs) = elim (Bool-cases (nat_beq c sep)) [
  | inl e ↦ rw e (
      join-empty_part sep cs
      ∙ ap₂ (λ (x : ℕ) (xs : Text). x ∷ xs) (sym ((nat_beq_iff c sep).0 e)) (join-split sep cs))
  | inr e ↦ rw e (join-push sep c (split sep cs) ∙ ap (λ xs. c ∷ xs) (join-split sep cs))
]

-- No part holds a delimiter.
unfoldable pub IsFree : Text → Type 0
IsFree s = All (λ c. is_delimiter c ≡ false) s

push-IsFree :
    (c : ℕ) (ps : List Text) → is_delimiter c ≡ false → All IsFree ps → All IsFree (push c ps)
unfolding push IsFree
push-IsFree c [] h ps = ((h, tt), tt)
push-IsFree c (p ∷ ps) h (q, qs) = ((h, q), qs)

pub split_runs_from-IsFree : (run : Bool) (s : Text) → All IsFree (split_runs_from run s)
unfolding split_runs_from IsFree
split_runs_from-IsFree run [] = (tt, tt)
split_runs_from-IsFree true (c ∷ cs) = elim (Bool-cases (is_delimiter c)) [
  | inl d ↦ rw d (split_runs_from-IsFree true cs)
  | inr d ↦ rw d (push-IsFree c (split_runs_from false cs) d (split_runs_from-IsFree false cs))
]
split_runs_from-IsFree false (c ∷ cs) = elim (Bool-cases (is_delimiter c)) [
  | inl d ↦ rw d (tt, split_runs_from-IsFree true cs)
  | inr d ↦ rw d (push-IsFree c (split_runs_from false cs) d (split_runs_from-IsFree false cs))
]

-- A text without delimiters is one part, whatever stood before it, if it is not empty.
pub split_runs_from-free : (run : Bool) (s : Text) → IsFree s → split_runs_from run s ≡ s ∷ []
unfolding split_runs_from IsFree
split_runs_from-free run [] h = refl
split_runs_from-free run (c ∷ cs) h = rw (h.0, split_runs_from-free false cs h.1)

-- A part that a comma follows is split off, and a run of delimiters begins.
pub split_runs_from-comma :
    (s rest : Text)
    → IsFree s
    → split_runs_from false (s ++ b',' ∷ rest) ≡ s ∷ split_runs_from true rest
unfolding split_runs_from IsFree is_delimiter
split_runs_from-comma [] rest h = refl
split_runs_from-comma (c ∷ cs) rest h = rw (h.0, split_runs_from-comma cs rest h.1)

-- Inside a run, a text that does not begin with a delimiter is split as outside.
pub split_runs_from_run :
    (c : ℕ) (cs : Text)
    → is_delimiter c ≡ false
    → split_runs_from true (c ∷ cs) ≡ split_runs_from false (c ∷ cs)
unfolding split_runs_from
split_runs_from_run c cs h = rw h
