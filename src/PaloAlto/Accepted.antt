-- ===== src/PaloAlto/Accepted.antt =====
-- Which texts the tests of frontend/src/pages/PaloAltoCheck/PaloAltoCheckPage.tsx accept.
use iop.Base.{
  every, ℕ, ◌-◌, ◌^◌, ◌≤◌, ◌≡◌, refl, Bool, true, false, not, ◌&&◌, List, [], ◌∷◌, ◌++◌, Text,
  length, leb, leb_iff, ltb, nat_beq, nat_beq_iff, All, All-append, All-mono, arith,
}
use iop.Text.Number.{is_digit, is_digit-plain, octet_text, octet_text-digits, passes, passes_at}
use iop.Text.Search.{is_empty}
use iop.Text.Split.{split, split-append, split-free}
use iop.Text.Trim.{trim, trim-solid, is_space}
use iop.Address.Dotted.{dotted, IsOctet, split-dotted}
use iop.PaloAlto.{
  is_decimal, number, is_octet, is_valid_ipv4, valid_parts, is_valid_cidr, host_count,
  cidr_host_count, max_bulk_ips, BulkInputMode, cidr_mode, list_mode, BulkInput, bulk_ip_list,
  cidr_too_large, bulk_expected_total, bulk_input_valid, scan_enabled,
}

octets_accepted : passes (λ n. is_octet (octet_text n)) 256 ≡ true
unfolding passes is_octet octet_text
octets_accepted = refl

is_octet-octet_text : (n : ℕ) → IsOctet n → is_octet (octet_text n) ≡ true
is_octet-octet_text n h = passes_at (λ n. is_octet (octet_text n)) 256 n h octets_accepted

abbrev prefix_accepted : ℕ → Bool
prefix_accepted p =
    is_decimal 2 (octet_text p)
    && nat_beq (number (octet_text p)) p
    && not (is_empty (octet_text p))
    && every is_digit (octet_text p)

prefixes_accepted : passes prefix_accepted 33 ≡ true
unfolding passes is_decimal number octet_text is_digit
prefixes_accepted = refl

prefix-accepted :
    (p : ℕ)
    → p ≤ 32
    → (is_decimal 2 (octet_text p) ≡ true)
      × (number (octet_text p) ≡ p)
      × (is_empty (octet_text p) ≡ false)
      × (every is_digit (octet_text p) ≡ true)
prefix-accepted p h =
    let all = passes_at prefix_accepted 33 p (omega (arith, h)) prefixes_accepted in
    ground (arith, nat_beq_iff (number (octet_text p)) p)

octet_text-filled : (n : ℕ) (rest : Text) → is_empty (octet_text n ++ rest) ≡ false
unfolding octet_text
octet_text-filled n rest = ground arith

abbrev both_or_none : Bool → Bool → Bool
both_or_none true b = b
both_or_none false b = not b

bool_same : (a b : Bool) → both_or_none a b ≡ true → b ≡ a
bool_same a b h = ground arith

abbrev agrees : ℕ → Bool
agrees p = both_or_none (leb 24 p) (not (ltb max_bulk_ips (2 ^ (32 - p) - 2)))

prefixes_agree : passes agrees 33 ≡ true
unfolding passes
prefixes_agree = refl

-- A network with at most 254 hosts has a prefix length of 24 or more.
small_enough : (p : ℕ) → p ≤ 32 → not (ltb max_bulk_ips (2 ^ (32 - p) - 2)) ≡ leb 24 p
small_enough p h =
    bool_same (leb 24 p) (not (ltb max_bulk_ips (2 ^ (32 - p) - 2)))
      (passes_at agrees 33 p (omega (arith, h)) prefixes_agree)

-- The characters of a dotted quad, and of a text that begins with one.
IsPlain : ℕ → Type 0
IsPlain c = (is_space c ≡ false) × (nat_beq c b'/' ≡ false)

digit-IsPlain : (c : ℕ) → is_digit c ≡ true → IsPlain c
unfolding IsPlain
digit-IsPlain c h = let plain = is_digit-plain c h in (plain.0, plain.3)

octet_text-IsPlain : (n : ℕ) → IsOctet n → All IsPlain (octet_text n)
unfolding is_digit
octet_text-IsPlain n h =
    All-mono (λ c. is_digit c ≡ true) IsPlain digit-IsPlain (octet_text n) (octet_text-digits n h)

dot-IsPlain : IsPlain b'.'
unfolding IsPlain is_space
dot-IsPlain = (refl, refl)

module _ (a b c d : ℕ) (ha : IsOctet a) (hb : IsOctet b) (hc : IsOctet c) (hd : IsOctet d) where
  dotted-IsPlain : All IsPlain (dotted a b c d)
  dotted-IsPlain = All-append IsPlain (octet_text a) _ (octet_text-IsPlain a ha) (
    dot-IsPlain,
    All-append IsPlain (octet_text b) _ (octet_text-IsPlain b hb) (
      dot-IsPlain,
      All-append IsPlain (octet_text c) _ (octet_text-IsPlain c hc)
          (dot-IsPlain, octet_text-IsPlain d hd),
    ),
  )

  dotted-solid : All (λ x. is_space x ≡ false) (dotted a b c d)
  unfolding IsPlain
  dotted-solid =
      All-mono IsPlain (λ x. is_space x ≡ false) (λ x p. p.0) (dotted a b c d) dotted-IsPlain

  dotted-free : All (λ x. nat_beq x b'/' ≡ false) (dotted a b c d)
  unfolding IsPlain
  dotted-free =
      All-mono IsPlain (λ x. nat_beq x b'/' ≡ false) (λ x p. p.1) (dotted a b c d) dotted-IsPlain

  -- The decimal text of four octets is accepted.
  pub is_valid_ipv4-dotted : is_valid_ipv4 (dotted a b c d) ≡ true
  unfolding is_valid_ipv4
  is_valid_ipv4-dotted =
      rw
        (
          trim-solid (dotted a b c d) dotted-solid,
          split-dotted a b c d,
          is_octet-octet_text a ha,
          is_octet-octet_text b hb,
          is_octet-octet_text c hc,
          is_octet-octet_text d hd,
        )
        refl

  abbrev network : ℕ → Text
  network p = dotted a b c d ++ b'/' ∷ octet_text p

  network-IsPlain_rest : (p : ℕ) → p ≤ 32 → All IsPlain (octet_text p)
  network-IsPlain_rest p h = octet_text-IsPlain p (omega (arith, h))

  slash-solid : is_space b'/' ≡ false
  unfolding is_space
  slash-solid = refl

  trim-network : (p : ℕ) → p ≤ 32 → trim (network p) ≡ network p
  unfolding IsPlain
  trim-network p h = trim-solid (network p) (
      All-append (λ x. is_space x ≡ false) (dotted a b c d) _ dotted-solid
        (
          slash-solid,
          All-mono IsPlain (λ x. is_space x ≡ false) (λ x q. q.0) (octet_text p)
              (network-IsPlain_rest p h),
        ))

  split-network : (p : ℕ) → p ≤ 32 → split b'/' (network p) ≡ dotted a b c d ∷ octet_text p ∷ []
  unfolding IsPlain
  split-network p h =
      rw
        (
          split-append b'/' (dotted a b c d) (octet_text p) dotted-free,
          split-free b'/' (octet_text p) (
              All-mono IsPlain (λ x. nat_beq x b'/' ≡ false) (λ x q. q.1) (octet_text p)
                (network-IsPlain_rest p h)),
        )
        refl

  dotted-filled : is_empty (dotted a b c d) ≡ false
  dotted-filled = octet_text-filled a _

  is_valid_cidr-network : (p : ℕ) → p ≤ 32 → is_valid_cidr (network p) ≡ true
  unfolding is_valid_cidr valid_parts
  is_valid_cidr-network p h =
      let good = prefix-accepted p h in
      rw
        (
          trim-network p h,
          split-network p h,
          dotted-filled,
          good.2,
          good.0,
          good.1,
          is_valid_ipv4-dotted,
          (leb_iff p 32).1 h,
        )
        (ground arith)

  cidr_host_count-network : (p : ℕ) → p ≤ 32 → cidr_host_count (network p) ≡ 2 ^ (32 - p) - 2
  unfolding cidr_host_count host_count
  cidr_host_count-network p h =
      rw (trim-network p h, split-network p h, (prefix-accepted p h).3, (prefix-accepted p h).1)
        refl

  -- A network in CIDR notation with four octets and a prefix length up to 32 can be scanned exactly
  -- where its prefix length is at least 24, so that it has at most 254 hosts, and where no more
  -- than 254 entries stand in the field of the list mode, which is then hidden.
  pub scan_enabled-network :
      (p : ℕ) (list : Text)
      → p ≤ 32
      → scan_enabled (record { mode = cidr_mode; cidr = network p; list = list })
        ≡ (leb 24 p && not (ltb max_bulk_ips (length (bulk_ip_list list))))
  unfolding scan_enabled bulk_input_valid cidr_too_large
  scan_enabled-network p list h =
      rw
        (trim-network p h, is_valid_cidr-network p h, cidr_host_count-network p h, small_enough p h)
        refl

bounded :
    (m : BulkInputMode) (cidr : Text) (ips : List Text)
    → (bulk_input_valid m cidr ips && not (ltb max_bulk_ips (length ips))) ≡ true
    → bulk_expected_total m cidr ips ≤ max_bulk_ips
unfolding bulk_input_valid cidr_too_large bulk_expected_total
bounded cidr_mode cidr ips h = ground arith
bounded list_mode cidr ips h = ground arith

-- What the button lets through expects at most 254 addresses.
pub scan_enabled-bounded :
    (s : BulkInput)
    → scan_enabled s ≡ true
    → bulk_expected_total s.mode s.cidr (bulk_ip_list s.list) ≤ max_bulk_ips
unfolding scan_enabled
scan_enabled-bounded s h = bounded s.mode s.cidr (bulk_ip_list s.list) h
