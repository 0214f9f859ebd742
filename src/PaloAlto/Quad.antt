-- ===== src/PaloAlto/Quad.antt =====
-- The addresses that frontend/src/pages/PaloAltoCheck/PaloAltoCheckPage.tsx accepts, and how the
-- other pages read them.
use iop.Base.{
  ℕ, ◌+◌, ◌*◌, ◌≤◌, ◌≡◌, ◌↔◌, refl, sym, ap, ◌∙◌, Bool, true, false, not, List, [], ◌∷◌, ◌++◌, some,
  Text, length, every, nat_beq, if◌then◌else◌, All, All-mono, and-eq-true, arith,
}
use iop.Base.Int.{pos}
use iop.Text.Number.{is_digit, digits_value, is_digit-plain, parse_int, parse_int-digits}
use iop.Text.Split.{split, join, join-split, split-append, split-free}
use iop.Text.Trim.{trim}
use mathlib.Core.List.{foldl}
use iop.Address.{ip_to_int, octet_step}
use iop.PaloAlto.{is_decimal, number, is_octet, is_valid_ipv4}

All_of_every : (t : ℕ → Bool) (cs : Text) → every t cs ≡ true → All (λ c. t c ≡ true) cs
All_of_every t [] h = tt
All_of_every t (c ∷ cs) h =
    let both = and-eq-true (t c) (every t cs) h in (both.0, All_of_every t cs both.1)

every_of_All : (t : ℕ → Bool) (cs : Text) → All (λ c. t c ≡ true) cs → every t cs ≡ true
every_of_All t [] h = refl
every_of_All t (c ∷ cs) h = ground (arith, h.0, every_of_All t cs h.1)

-- One to three digits, of at most 255, where leading zeros are allowed.
pub record IsOctetText (p : Text) : Type 0 where
  pub some_digit : 1 ≤ length p
  pub few_digits : length p ≤ 3
  pub all_digits : All (λ c. is_digit c ≡ true) p
  pub bounded : digits_value 0 p ≤ 255

is_octet-IsOctetText : (p : Text) → is_octet p ≡ true → IsOctetText p
unfolding is_octet is_decimal number
is_octet-IsOctetText p h = record {
  some_digit = ground arith;
  few_digits = ground arith;
  all_digits = All_of_every is_digit p (ground arith);
  bounded = ground arith;
}

IsOctetText-is_octet : (p : Text) → IsOctetText p → is_octet p ≡ true
unfolding is_octet is_decimal number
IsOctetText-is_octet p h =
    ground (arith, h.some_digit, h.few_digits, every_of_All is_digit p h.all_digits, h.bounded)

-- `p.q.r.t` of four such texts, which `ipToInt` of the other pages reads as the number with these
-- four digits in base 256.
pub record IsQuad (s : Text) : Type 0 where
  pub p : Text
  pub q : Text
  pub r : Text
  pub t : Text
  pub shape : s ≡ p ++ b'.' ∷ (q ++ b'.' ∷ (r ++ b'.' ∷ t))
  pub octets : IsOctetText p × IsOctetText q × IsOctetText r × IsOctetText t
  pub value :
      ip_to_int s
      ≡ ((digits_value 0 p * 256 + digits_value 0 q) * 256 + digits_value 0 r) * 256
        + digits_value 0 t

parse_int-IsOctetText : (p : Text) → IsOctetText p → parse_int p ≡ some (pos (digits_value 0 p))
parse_int-IsOctetText [] h = absurd (omega (arith, h.some_digit))
parse_int-IsOctetText (c ∷ cs) h = parse_int-digits c cs h.all_digits

foldl_octets :
    (p q r t : Text)
    → IsOctetText p
    → IsOctetText q
    → IsOctetText r
    → IsOctetText t
    → foldl octet_step 0 (p ∷ q ∷ r ∷ t ∷ [])
      ≡ ((digits_value 0 p * 256 + digits_value 0 q) * 256 + digits_value 0 r) * 256
        + digits_value 0 t
foldl_octets p q r t hp hq hr ht =
    rw
      (
        parse_int-IsOctetText p hp,
        parse_int-IsOctetText q hq,
        parse_int-IsOctetText r hr,
        parse_int-IsOctetText t ht,
      )
      (omega (arith, hp.bounded, hq.bounded, hr.bounded, ht.bounded))

four_parts :
    (s p q r t : Text)
    → split b'.' s ≡ p ∷ q ∷ r ∷ t ∷ []
    → every is_octet (p ∷ q ∷ r ∷ t ∷ []) ≡ true
    → IsQuad s
unfolding ip_to_int join
four_parts s p q r t e h =
    let hp = is_octet-IsOctetText p (ground arith) in
    let hq = is_octet-IsOctetText q (ground arith) in
    let hr = is_octet-IsOctetText r (ground arith) in
    let ht = is_octet-IsOctetText t (ground arith) in
    record {
      p = p;
      q = q;
      r = r;
      t = t;
      shape = sym (join-split b'.' s) ∙ ap (join b'.') e;
      octets = (hp, hq, hr, ht);
      value = ap (foldl octet_step 0) e ∙ foldl_octets p q r t hp hq hr ht;
    }

split-IsQuad :
    (s : Text) (ps : List Text)
    → split b'.' s ≡ ps
    → nat_beq (length ps) 4 ≡ true
    → every is_octet ps ≡ true
    → IsQuad s
split-IsQuad s (p ∷ q ∷ r ∷ t ∷ []) e n h = four_parts s p q r t e h
split-IsQuad s [] e n h = absurd (ground arith)
split-IsQuad s (p ∷ []) e n h = absurd (ground arith)
split-IsQuad s (p ∷ q ∷ []) e n h = absurd (ground arith)
split-IsQuad s (p ∷ q ∷ r ∷ []) e n h = absurd (ground arith)
split-IsQuad s (p ∷ q ∷ r ∷ t ∷ u ∷ ps) e n h = absurd (ground arith)

-- Digits are no dots.
dot_free : (p : Text) → IsOctetText p → All (λ c. nat_beq c b'.' ≡ false) p
dot_free p h =
    All-mono (λ c. is_digit c ≡ true) (λ c. nat_beq c b'.' ≡ false) (λ c d. (is_digit-plain c d).4)
      p h.all_digits

IsQuad-split : (s : Text) (h : IsQuad s) → split b'.' s ≡ h.p ∷ h.q ∷ h.r ∷ h.t ∷ []
IsQuad-split s h =
    ap (split b'.') h.shape
    ∙ rw
        (
          split-append b'.' h.p (h.q ++ b'.' ∷ (h.r ++ b'.' ∷ h.t)) (dot_free h.p h.octets.0),
          split-append b'.' h.q (h.r ++ b'.' ∷ h.t) (dot_free h.q h.octets.1),
          split-append b'.' h.r h.t (dot_free h.r h.octets.2),
          split-free b'.' h.t (dot_free h.t h.octets.3),
        )
        refl

-- The tests at the start of `isValidIPv4` that were passed.
passed :
    (count every_octet : Bool)
    → (if not count then false else every_octet) ≡ true
    → (count ≡ true) × (every_octet ≡ true)
passed true e h = (refl, h)
passed false e h = absurd (ground arith)

-- The page accepts exactly the texts that are, once trimmed, four octets with dots between them,
-- each of one to three digits and at most 255; and `ipToInt` of the other pages reads these as the
-- number with the four octets as its digits in base 256.
pub is_valid_ipv4-IsQuad : (s : Text) → (is_valid_ipv4 s ≡ true) ↔ IsQuad (trim s)
unfolding is_valid_ipv4
is_valid_ipv4-IsQuad s = (
  λ h.
      let parts = split b'.' (trim s) in
      let good = passed (nat_beq (length parts) 4) (every is_octet parts) h in
      split-IsQuad (trim s) parts refl good.0 good.1,
  λ h. rw (IsQuad-split (trim s) h) (
      ground (
        arith,
        IsOctetText-is_octet h.p h.octets.0,
        IsOctetText-is_octet h.q h.octets.1,
        IsOctetText-is_octet h.r h.octets.2,
        IsOctetText-is_octet h.t h.octets.3,
      )),
)
