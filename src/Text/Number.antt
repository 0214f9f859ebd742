-- ===== src/Text/Number.antt =====
-- `parseInt(s, 10)`, with `none` for NaN, and the decimal texts of an octet.
use iop.Base.{
  Bool-cases, inl, inr, ap, nat_beq_iff, ℕ, zero, suc, ◌+◌, ◌-◌, ◌*◌, ◌/◌, ◌%◌, ◌<◌, ◌≤◌, ◌≡◌, refl,
  Bool, true, false, ◌&&◌, [], ◌∷◌, ◌++◌, Option, none, some, arith, Text, nat_beq, leb, ltb,
  if◌then◌else◌, All,
}
use iop.Base.Int.{ℤ, pos, neg_ℕ}
use iop.Text.Trim.{trim_start, is_space}

unfoldable pub is_digit : ℕ → Bool
is_digit c = leb b'0' c && leb c b'9'

-- The value of the digits that the text begins with, after those read so far.
unfoldable pub digits_value : ℕ → Text → ℕ
unfolding is_digit
digits_value acc [] = acc
digits_value acc (c ∷ cs) =
    let more = digits_value (acc * 10 + (c - b'0')) cs in if is_digit c then more else acc

pub parse_digits : Text → Option ℕ
unfolding digits_value is_digit
parse_digits [] = none
parse_digits (c ∷ cs) = if is_digit c then some (digits_value 0 (c ∷ cs)) else none

abbrev negated : Option ℕ → Option ℤ
negated none = none
negated (some n) = some (neg_ℕ n)

abbrev positive : Option ℕ → Option ℤ
positive none = none
positive (some n) = some (pos n)

parse_signed : Text → Option ℤ
unfolding parse_digits
parse_signed [] = none
parse_signed (c ∷ cs) =
    if nat_beq c b'-'
    then negated (parse_digits cs)
    else if nat_beq c b'+'
    then positive (parse_digits cs)
    else positive (parse_digits (c ∷ cs))

unfoldable pub parse_int : Text → Option ℤ
unfolding parse_signed trim_start
parse_int s = parse_signed (trim_start s)

abbrev digit : ℕ → ℕ
digit n = b'0' + n

-- An octet in decimal, without leading zeros.
unfoldable pub octet_text : ℕ → Text
octet_text n =
    if ltb n 10
    then digit n ∷ []
    else if ltb n 100
    then digit (n / 10) ∷ digit (n % 10) ∷ []
    else digit (n / 100) ∷ digit (n / 10 % 10) ∷ digit (n % 10) ∷ []

-- A test that every number below a bound passes.
unfoldable pub passes : (ℕ → Bool) → ℕ → Bool
passes test zero = true
passes test (suc bound) = if test bound then passes test bound else false

pub passes_at :
    (test : ℕ → Bool) (bound i : ℕ) → i < bound → passes test bound ≡ true → test i ≡ true
unfolding passes
passes_at test zero i small all = absurd (omega arith)
passes_at test (suc bound) i small all = elim (Bool-cases (nat_beq i bound)) [
  | inl e ↦ ground (arith, ap test ((nat_beq_iff i bound).0 e))
  | inr e ↦ ground (arith, passes_at test bound i)
]

reads : ℕ → Option ℤ → Bool
reads n (some (pos m)) = nat_beq m n
reads n _ = false

reads_iff : (n : ℕ) (o : Option ℤ) → reads n o ≡ true → o ≡ some (pos n)
unfolding reads
reads_iff n none h = cc
reads_iff n (some (pos m)) h = ground arith
reads_iff n (some (ℤ.negsuc m)) h = cc

octets_read : passes (λ n. reads n (parse_int (octet_text n))) 256 ≡ true
unfolding passes reads parse_int octet_text
octets_read = refl

-- Every octet is read back from its decimal text.
pub parse_int-octet_text : (n : ℕ) → n < 256 → parse_int (octet_text n) ≡ some (pos n)
parse_int-octet_text n h =
    reads_iff n (parse_int (octet_text n))
      (passes_at (λ n. reads n (parse_int (octet_text n))) 256 n h octets_read)

-- The decimal text of a number below 1000 holds no dot.
pub octet_text-free : (n : ℕ) → All (λ c. nat_beq c b'.' ≡ false) (octet_text n)
unfolding octet_text
octet_text-free n = ground arith

-- A digit is neither white space nor a sign nor a dot nor a slash.
pub is_digit-plain :
    (c : ℕ)
    → is_digit c ≡ true
    → (is_space c ≡ false)
      × (nat_beq c b'-' ≡ false)
      × (nat_beq c b'+' ≡ false)
      × (nat_beq c b'/' ≡ false)
      × (nat_beq c b'.' ≡ false)
unfolding is_digit is_space
is_digit-plain c h = (ground arith, ground arith, ground arith, ground arith, ground arith)

-- A text of digits alone is read as their value.
pub parse_int-digits :
    (c : ℕ) (cs : Text)
    → All (λ d. is_digit d ≡ true) (c ∷ cs)
    → parse_int (c ∷ cs) ≡ some (pos (digits_value 0 (c ∷ cs)))
unfolding parse_int parse_signed parse_digits trim_start
parse_int-digits c cs h =
    let plain = is_digit-plain c h.0 in rw plain.0 (rw plain.1 (rw plain.2 (rw h.0 refl)))

-- The decimal text of a number, as a template literal gives it, with fuel for its digits.
unfoldable pub decimal_from : ℕ → ℕ → Text
decimal_from zero n = []
decimal_from (suc fuel) n =
    let front = decimal_from fuel (n / 10) in
    if ltb n 10 then (b'0' + n) ∷ [] else front ++ (b'0' + n % 10) ∷ []

-- Fuel above the number changes nothing.
decimal_from-enough : (f g n : ℕ) → n < f → n < g → decimal_from f n ≡ decimal_from g n
unfolding decimal_from
decimal_from-enough zero g n h k = absurd (omega (arith, h))
decimal_from-enough (suc f) zero n h k = absurd (omega (arith, k))
decimal_from-enough (suc f) (suc g) n h k = elim (Bool-cases (ltb n 10)) [
  | inl e ↦ rw e refl
  | inr e ↦
      let large : 10 ≤ n = ground (arith, e) in
      rw e (
        ap (λ (t : Text). t ++ (b'0' + n % 10) ∷ [])
          (decimal_from-enough f g (n / 10) (omega (arith, h, large)) (omega (arith, k, large))))
]

-- A number has no more digits than its successor counts.
unfoldable pub decimal : ℕ → Text
unfolding decimal_from
decimal n = decimal_from (suc n) n

-- The decimal text of an octet consists of digits.
pub octet_text-digits :
    (n : ℕ) → n < 256 → All (λ c. (leb b'0' c && leb c b'9') ≡ true) (octet_text n)
unfolding octet_text
octet_text-digits n h = elim (Bool-cases (ltb n 10)) [
  | inl e ↦ rw e (ground (arith), tt)
  | inr e ↦ rw e (elim (Bool-cases (ltb n 100)) [
    | inl f ↦ rw f (ground (arith), (ground (arith), tt))
    | inr f ↦ rw f (ground (arith), (ground (arith), (ground (arith), tt)))
  ])
]
