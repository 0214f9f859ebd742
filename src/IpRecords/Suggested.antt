-- ===== src/IpRecords/Suggested.antt =====
-- The network that the page suggests for an IPv4 address holds the address.
use iop.Base.{
  ℕ, ◌≡◌, refl, sym, ap, ◌∙◌, inl, inr, Bool, true, false, ◌||◌, ◌&&◌, leb, nat_beq_iff, [], ◌∷◌,
  ◌++◌, some, Text, text, arith, nat_beq, All, All-mono, All-append, Bool-cases,
}
use mathlib.Core.List.{append_assoc}
use iop.Base.Int.{pos}
use iop.Text.Search.{contains, starts_with}
use iop.Text.Split.{split, split-append}
use iop.Text.Number.{octet_text, octet_text-digits, parse_int-octet_text}
use iop.Address.{is_ip_in_cidr, network_of, prefix_of, ip_to_int, first_part, second_int}
use iop.Address.Range.{is_ip_in_cidr_iff, InBlock}
use iop.Address.Dotted.{dotted, IsOctet, split-dotted, ip_to_int-dotted}
use iop.IpRecords.{is_ipv6, fits_cidr, suggest_cidr, suggest_v4}

abbrev Lacks : ℕ → Text → Type 0
Lacks x s = All (λ c. nat_beq c x ≡ false) s

contains-Lacks : (x : ℕ) (s : Text) → Lacks x s → contains s (x ∷ []) ≡ false
unfolding contains starts_with
contains-Lacks x [] h = refl
contains-Lacks x (c ∷ cs) h = ground (arith, contains-Lacks x cs h.1)

-- A digit or a dot.
abbrev is_quad_char : ℕ → Bool
is_quad_char c = (leb b'0' c && leb c b'9') || nat_beq c b'.'

octet_text-quad : (n : ℕ) → IsOctet n → All (λ c. is_quad_char c ≡ true) (octet_text n)
octet_text-quad n h =
    All-mono (λ c. (leb b'0' c && leb c b'9') ≡ true) (λ c. is_quad_char c ≡ true)
      (λ c e. ground (arith)) (octet_text n) (octet_text-digits n h)

-- A dotted quad consists of digits and dots.
dotted-quad :
    (a b c d : ℕ)
    → IsOctet a
    → IsOctet b
    → IsOctet c
    → IsOctet d
    → All (λ x. is_quad_char x ≡ true) (dotted a b c d)
dotted-quad a b c d ha hb hc hd =
    All-append (λ x. is_quad_char x ≡ true) (octet_text a) _ (octet_text-quad a ha)
      (
        refl,
        All-append (λ x. is_quad_char x ≡ true) (octet_text b) _ (octet_text-quad b hb)
            (
              refl,
              All-append (λ x. is_quad_char x ≡ true) (octet_text c) _ (octet_text-quad c hc)
                  (refl, octet_text-quad d hd),
            ),
      )

quad-Lacks :
    (x : ℕ) (s : Text) → is_quad_char x ≡ false → All (λ c. is_quad_char c ≡ true) s → Lacks x s
quad-Lacks x s h quad =
    All-mono (λ c. is_quad_char c ≡ true) (λ c. nat_beq c x ≡ false) (λ c e. differs c e) s quad
  where
    true_false : true ≡ false → ⊥
    true_false eq = cc eq

    differs : (c : ℕ) → is_quad_char c ≡ true → nat_beq c x ≡ false
    differs c e = elim (Bool-cases (nat_beq c x)) [
      | inl same ↦ absurd (true_false (sym e ∙ ap is_quad_char ((nat_beq_iff c x).0 same) ∙ h))
      | inr other ↦ other
    ]

module _ (a b c : ℕ) (ha : IsOctet a) (hb : IsOctet b) (hc : IsOctet c) where
  quad-is_ipv6 : (d : ℕ) → IsOctet d → is_ipv6 (dotted a b c d) ≡ false
  unfolding is_ipv6
  quad-is_ipv6 d hd =
      contains-Lacks b':' (dotted a b c d)
        (quad-Lacks b':' (dotted a b c d) refl (dotted-quad a b c d ha hb hc hd))

  split-network : split b'/' (dotted a b c 0 ++ text "/24") ≡ dotted a b c 0 ∷ text "24" ∷ []
  unfolding split
  split-network =
      split-append b'/' (dotted a b c 0) (text "24")
        (quad-Lacks b'/' (dotted a b c 0) refl (dotted-quad a b c 0 ha hb hc (omega arith)))

  reassociate :
      octet_text a ++ text "." ++ octet_text b ++ text "." ++ octet_text c ++ text ".0/24"
      ≡ dotted a b c 0 ++ text "/24"
  unfolding octet_text
  reassociate = simp append_assoc refl

  suggested : (d : ℕ) → IsOctet d → suggest_cidr (dotted a b c d) ≡ dotted a b c 0 ++ text "/24"
  unfolding suggest_cidr
  suggested d hd =
      rw (quad-is_ipv6 d hd) (ap (suggest_v4 (dotted a b c d)) (split-dotted a b c d) ∙ reassociate)

  network_of-suggested : network_of (dotted a b c 0 ++ text "/24") ≡ dotted a b c 0
  unfolding network_of
  network_of-suggested = ap first_part split-network

  prefix_of-suggested : prefix_of (dotted a b c 0 ++ text "/24") ≡ some (pos 24)
  unfolding prefix_of octet_text
  prefix_of-suggested = ap second_int split-network ∙ parse_int-octet_text 24 (omega arith)

  in_block :
      (d : ℕ) → IsOctet d → InBlock 8 (ip_to_int (dotted a b c 0)) (ip_to_int (dotted a b c d))
  in_block d hd =
      rw (ip_to_int-dotted a b c 0 ha hb hc (omega arith), ip_to_int-dotted a b c d ha hb hc hd)
        (omega arith, omega arith)

  -- The network that the page suggests for an IPv4 address in decimal passes the page's own check
  -- for the address.
  pub fits_cidr-suggest_cidr :
      (d : ℕ) → IsOctet d → fits_cidr (dotted a b c d) (suggest_cidr (dotted a b c d)) ≡ true
  unfolding fits_cidr
  fits_cidr-suggest_cidr d hd =
      let cidr = dotted a b c 0 ++ text "/24" in
      let inside : is_ip_in_cidr (dotted a b c d) cidr ≡ true =
        (is_ip_in_cidr_iff (dotted a b c d) cidr 24 8 prefix_of-suggested refl).1
          (rw network_of-suggested (in_block d hd)) in
      rw (suggested d hd) (
        rw network_of-suggested (rw (quad-is_ipv6 d hd) (rw (quad-is_ipv6 0 (omega arith)) inside)))
