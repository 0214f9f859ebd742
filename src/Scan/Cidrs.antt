-- ===== src/Scan/Cidrs.antt =====
-- `parseCidrs` of frontend/src/pages/NetworkScan/NetworkScanPage.tsx.
use iop.Base.{
  ◌≡◌, refl, ap, ◌∙◌, true, false, not, List, [], ◌∷◌, ◌++◌, map, Text, filter, All, Bool-cases,
  inl, inr, All-dedup, dedup, Distinct, Distinct-dedup, dedup-Distinct, includes, includes-dedup,
  text_eq,
}
use iop.Text.Split.{
  split_runs, split_runs_from, split_runs_from-IsFree, split_runs_from-free, split_runs_from-comma,
  split_runs_from_run, is_delimiter, IsFree, join,
}
use iop.Text.Trim.{trim, trim-trim, All-trim}
use iop.Text.Search.{is_empty}

-- `text.split(/[\n,]+/).map((c) => c.trim()).filter(Boolean)`
unfoldable pub entries : Text → List Text
entries s = filter (λ c. not (is_empty c)) (map trim (split_runs s))

unfoldable pub parse_cidrs : Text → List Text
unfolding entries
parse_cidrs s = dedup (entries s)

-- An entry: not empty, without white space at its ends, and without a comma or a newline.
pub record IsEntry (c : Text) : Type 0 where
  pub filled : is_empty c ≡ false
  pub trimmed : trim c ≡ c
  pub free : IsFree c

IsFree-trim : (s : Text) → IsFree s → IsFree (trim s)
unfolding IsFree
IsFree-trim s h = All-trim (λ c. is_delimiter c ≡ false) s h

kept-IsEntry :
    (ps : List Text) → All IsFree ps → All IsEntry (filter (λ c. not (is_empty c)) (map trim ps))
kept-IsEntry [] h = tt
kept-IsEntry (p ∷ ps) h = elim (Bool-cases (is_empty (trim p))) [
  | inl e ↦ rw e (kept-IsEntry ps h.1)
  | inr e ↦
      rw e (
        record { filled = e; trimmed = trim-trim p; free = IsFree-trim p h.0 },
        kept-IsEntry ps h.1,
      )
]

pub entries-IsEntry : (s : Text) → All IsEntry (entries s)
unfolding entries split_runs
entries-IsEntry s = kept-IsEntry (split_runs_from false s) (split_runs_from-IsFree false s)

-- The parsed list has no repetition, and each of its elements is an entry.
pub parse_cidrs-IsEntry : (s : Text) → Distinct (parse_cidrs s) × All IsEntry (parse_cidrs s)
unfolding parse_cidrs
parse_cidrs-IsEntry s =
    (Distinct-dedup (entries s), All-dedup IsEntry (entries s) (entries-IsEntry s))

-- An entry is not empty, so behind a comma it ends the run of delimiters.
entry_ends_run :
    (c : Text) (cs : List Text)
    → IsEntry c
    → split_runs_from true (join b',' (c ∷ cs)) ≡ split_runs_from false (join b',' (c ∷ cs))
unfolding join IsFree
entry_ends_run [] cs h = cc h.filled
entry_ends_run (x ∷ xs) [] h = split_runs_from_run x xs h.free.0
entry_ends_run (x ∷ xs) (d ∷ ds) h =
    split_runs_from_run x (xs ++ b',' ∷ join b',' (d ∷ ds)) h.free.0

split_runs-join :
    (c : Text) (cs : List Text)
    → IsEntry c
    → All IsEntry cs
    → split_runs_from false (join b',' (c ∷ cs)) ≡ c ∷ cs
unfolding join
split_runs-join c [] h hs = split_runs_from-free false c h.free
split_runs-join c (d ∷ ds) h hs =
    split_runs_from-comma c (join b',' (d ∷ ds)) h.free
    ∙ ap (λ r. c ∷ r) (entry_ends_run d ds hs.0 ∙ split_runs-join d ds hs.0 hs.1)

kept_entries : (cs : List Text) → All IsEntry cs → filter (λ c. not (is_empty c)) (map trim cs) ≡ cs
kept_entries [] h = refl
kept_entries (c ∷ cs) h = rw (h.0.trimmed, h.0.filled) (ap (λ r. c ∷ r) (kept_entries cs h.1))

entries-join : (cs : List Text) → All IsEntry cs → entries (join b',' cs) ≡ cs
unfolding entries split_runs
entries-join [] h = unfold join split_runs_from trim in refl
entries-join (c ∷ cs) h = rw (split_runs-join c cs h.0 h.1) (kept_entries (c ∷ cs) h)

-- Writing distinct entries with commas between them and parsing that gives them back, in order.
pub parse_cidrs-join :
    (cs : List Text) → All IsEntry cs → Distinct cs → parse_cidrs (join b',' cs) ≡ cs
unfolding parse_cidrs
parse_cidrs-join cs h d = rw (entries-join cs h) (dedup-Distinct cs d)

-- The set of CIDRs to scan has the entries of the text and nothing else.
pub includes-parse_cidrs : (s c : Text) → includes (parse_cidrs s) c ≡ includes (entries s) c
unfolding parse_cidrs
includes-parse_cidrs s c = includes-dedup (entries s) c
