-- ===== src/Vault/Generator/Charset.antt =====
-- The characters and the length of a generated password.
use iop.Base.{
  ℕ, ◌%◌, ◌<◌, suc, zero, ◌≡◌, refl, ap, ◌∙◌, inl, inr, Bool, true, false, List, [], ◌∷◌, ◌++◌,
  some, Text, text, length, get_elem?, if◌then◌else◌, arith, nat_eq, includes, Bool-cases, every,
  All, eq_self, not, apply_same, All-mono,
}
use native.Mathlib.Nat.{mod-lt}
use iop.Text.Search.{is_empty}
use iop.Vault.Generator.{
  Choices, charset, pick, generate_password, charset_size, upper, lower, digits, symbols,
}

-- The size that the entropy is computed from is the number of characters drawn from.
pub charset_size_lem : (c : Choices) → charset_size c ≡ length (charset c)
unfolding charset charset_size
charset_size_lem c = ground arith

-- An index in range is that of one of the elements.
get_elem?-in_range :
    (cs : Text) (i : ℕ)
    → i < length cs
    → (c : ℕ) × (get_elem? cs i ≡ some c) × (includes cs c ≡ true)
get_elem?-in_range [] i h = absurd (omega (arith, h))
get_elem?-in_range (x ∷ cs) zero h = (x, refl, ground (arith, eq_self x))
get_elem?-in_range (x ∷ cs) (suc i) h =
    let rest = get_elem?-in_range cs i (omega (arith, h)) in
    (rest.0, rest.1, ground (arith, rest.2))

pick_lem :
    (cs : Text) (ns : List ℕ)
    → 0 < length cs
    → (length (pick cs ns) ≡ length ns) × All (λ ch. includes cs ch ≡ true) (pick cs ns)
unfolding pick
pick_lem cs [] h = (refl, tt)
pick_lem cs (n ∷ ns) h =
    let found = get_elem?-in_range cs (n % length cs) (mod-lt n h) in
    let rest = pick_lem cs ns h in rw found.1 (ap suc rest.0, (found.2, rest.1))

is_empty-length : (cs : Text) → is_empty cs ≡ false → 0 < length cs
is_empty-length [] h = cc
is_empty-length (c ∷ cs) h = omega arith

-- Where some characters are to be drawn from, the password has the length asked for and consists
-- of characters of the charset; without any it is empty.
pub generate_password_lem :
    (random : ℕ → List ℕ) (n : ℕ) (c : Choices)
    → length (random n) ≡ n
    → (length (generate_password random n c) ≡ (if is_empty (charset c) then 0 else n))
      × All (λ ch. includes (charset c) ch ≡ true) (generate_password random n c)
unfolding generate_password
generate_password_lem random n c h = elim (Bool-cases (is_empty (charset c))) [
  | inl e ↦ rw e (refl, tt)
  | inr e ↦ rw e (
      let drawn = pick_lem (charset c) (random n) (is_empty-length (charset c) e) in
      (drawn.0 ∙ h, drawn.1))
]

abbrev pub ambiguous : Text
ambiguous = text "IOilo01"

abbrev is_clear : Text → Bool
is_clear cs = every (λ ch. not (includes ambiguous ch)) cs

abbrev part : Bool → Text → Text
part used cs = if used then cs else []

is_clear-append :
    (xs ys : Text) → is_clear xs ≡ true → is_clear ys ≡ true → is_clear (xs ++ ys) ≡ true
is_clear-append [] ys h k = k
is_clear-append (x ∷ xs) ys h k = ground (arith, is_clear-append xs ys)

is_clear-part : (used : Bool) (cs : Text) → is_clear cs ≡ true → is_clear (part used cs) ≡ true
is_clear-part true cs h = h
is_clear-part false cs h = refl

is_clear-parts :
    (u l d s : Bool)
    → is_clear (part u upper ++ part l lower ++ part d digits ++ part s symbols) ≡ true
is_clear-parts u l d s =
    let letters =
      is_clear-append (part u upper) (part l lower) (is_clear-part u upper refl)
        (is_clear-part l lower refl) in
    let most =
      is_clear-append (part u upper ++ part l lower) (part d digits) letters
        (is_clear-part d digits refl) in
    is_clear-append (part u upper ++ part l lower ++ part d digits) (part s symbols) most
      (is_clear-part s symbols refl)

is_clear-charset : (c : Choices) → c.no_ambiguous ≡ true → is_clear (charset c) ≡ true
unfolding charset
is_clear-charset c h = rw h (is_clear-parts c.use_upper c.use_lower c.use_digits c.use_symbols)

clear_of :
    (cs : Text) (ch : ℕ)
    → is_clear cs ≡ true
    → includes cs ch ≡ true
    → includes ambiguous ch ≡ false
clear_of [] ch h k = cc
clear_of (x ∷ cs) ch h k =
    ground (arith, clear_of cs ch, apply_same (λ (y : ℕ). includes ambiguous y) x ch)

-- With "no ambiguous characters" no password has an I, an O, an i, an l, an o, a 0 or a 1.
pub generate_password-clear :
    (random : ℕ → List ℕ) (n : ℕ) (c : Choices)
    → length (random n) ≡ n
    → c.no_ambiguous ≡ true
    → All (λ ch. includes ambiguous ch ≡ false) (generate_password random n c)
generate_password-clear random n c h clear =
    All-mono (λ ch. includes (charset c) ch ≡ true) (λ ch. includes ambiguous ch ≡ false)
      (λ ch. clear_of (charset c) ch (is_clear-charset c clear)) (generate_password random n c)
      (generate_password_lem random n c h).1
