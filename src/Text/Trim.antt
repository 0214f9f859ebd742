-- ===== src/Text/Trim.antt =====
-- `s.trim()`.
use iop.Base.{
  ℕ, ◌≡◌, refl, inl, inr, Bool, false, ◌&&◌, ◌||◌, [], ◌∷◌, arith, Text, nat_beq, leb,
  if◌then◌else◌, All, Bool-cases,
}

-- The white space and line ends of ECMAScript.
unfoldable pub is_space : ℕ → Bool
is_space c =
    (leb 9 c && leb c 13)
    || nat_beq c 32
    || nat_beq c 0xa0
    || nat_beq c 0xfeff
    || nat_beq c 0x1680
    || (leb 0x2000 c && leb c 0x200a)
    || nat_beq c 0x2028
    || nat_beq c 0x2029
    || nat_beq c 0x202f
    || nat_beq c 0x205f
    || nat_beq c 0x3000

unfoldable pub trim_start : Text → Text
unfolding is_space
trim_start [] = []
trim_start (c ∷ cs) = if is_space c then trim_start cs else c ∷ cs

-- Puts a code unit in front of what is left, unless it is white space with nothing behind it.
pub keep : ℕ → Text → Text
keep c [] = if is_space c then [] else c ∷ []
keep c (d ∷ ds) = c ∷ d ∷ ds

pub trim_end : Text → Text
unfolding keep
trim_end [] = []
trim_end (c ∷ cs) = keep c (trim_end cs)

unfoldable pub trim : Text → Text
unfolding trim_start trim_end is_space
trim s = trim_end (trim_start s)

-- Trimming keeps what holds of every code unit.
module _ {κ} (P : ℕ → Type κ) where
  All-trim_start : (s : Text) → All P s → All P (trim_start s)
  unfolding trim_start
  All-trim_start [] h = h
  All-trim_start (c ∷ cs) h = ground (arith, All-trim_start cs h.1)

  All-keep : (c : ℕ) (s : Text) → P c → All P s → All P (keep c s)
  unfolding keep
  All-keep c [] h hs = ground arith
  All-keep c (d ∷ ds) h hs = (h, hs)

  All-trim_end : (s : Text) → All P s → All P (trim_end s)
  unfolding trim_end
  All-trim_end [] h = h
  All-trim_end (c ∷ cs) h = All-keep c (trim_end cs) h.0 (All-trim_end cs h.1)

  pub All-trim : (s : Text) → All P s → All P (trim s)
  unfolding trim
  All-trim s h = All-trim_end (trim_start s) (All-trim_start s h)

trim_end-keep : (c : ℕ) (s : Text) → trim_end s ≡ s → trim_end (keep c s) ≡ keep c s
unfolding trim_end keep
trim_end-keep c [] h = ground arith
trim_end-keep c (d ∷ ds) h = rw h

trim_end-trim_end : (s : Text) → trim_end (trim_end s) ≡ trim_end s
unfolding trim_end
trim_end-trim_end [] = refl
trim_end-trim_end (c ∷ cs) = trim_end-keep c (trim_end cs) (trim_end-trim_end cs)

-- A text that does not begin with white space.
IsStarted : Text → Type 0
IsStarted [] = Unit
IsStarted (c ∷ cs) = is_space c ≡ false

trim_start-IsStarted : (s : Text) → IsStarted (trim_start s)
unfolding trim_start IsStarted
trim_start-IsStarted [] = tt
trim_start-IsStarted (c ∷ cs) = elim (Bool-cases (is_space c)) [
  | inl h ↦ rw h (trim_start-IsStarted cs)
  | inr h ↦ rw h h
]

keep-IsStarted : (c : ℕ) (s : Text) → is_space c ≡ false → trim_start (keep c s) ≡ keep c s
unfolding keep trim_start
keep-IsStarted c [] h = rw (h, h)
keep-IsStarted c (d ∷ ds) h = rw h

trim_start-trim_end : (s : Text) → IsStarted s → trim_start (trim_end s) ≡ trim_end s
unfolding trim_end IsStarted trim_start
trim_start-trim_end [] h = refl
trim_start-trim_end (c ∷ cs) h = keep-IsStarted c (trim_end cs) h

-- A trimmed text is left alone.
pub trim-trim : (s : Text) → trim (trim s) ≡ trim s
unfolding trim
trim-trim s =
    rw (trim_start-trim_end (trim_start s) (trim_start-IsStarted s))
      (trim_end-trim_end (trim_start s))

-- A space in front is trimmed.
pub trim-space : (s : Text) → trim (32 ∷ s) ≡ trim s
unfolding trim trim_start
trim-space s = refl

trim_end-solid : (s : Text) → All (λ c. is_space c ≡ false) s → trim_end s ≡ s
unfolding trim_end keep
trim_end-solid [] h = refl
trim_end-solid (c ∷ []) h = rw h.0 refl
trim_end-solid (c ∷ d ∷ ds) h = rw (trim_end-solid (d ∷ ds) h.1) refl

-- A text without white space is left alone.
pub trim-solid : (s : Text) → All (λ c. is_space c ≡ false) s → trim s ≡ s
unfolding trim trim_start
trim-solid [] h = refl
trim-solid (c ∷ cs) h = rw h.0 (trim_end-solid (c ∷ cs) h)
