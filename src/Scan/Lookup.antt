-- ===== src/Scan/Lookup.antt =====
-- `findSubnetForIP` of frontend/src/pages/NetworkScan/NetworkScanPage.tsx: the longest prefix.
use iop.Base.{
  sym, and-eq-true, All-mono, ℕ, ◌≡◌, refl, ◌⊎◌, inl, inr, Bool, true, false, ◌&&◌, List, [], ◌∷◌,
  Option, none, some, arith, Text, if◌then◌else◌, All, Bool-cases, Member,
}
use iop.Base.Int.{ℤ, pos, negsuc, ltb_ℤ, ◌<ℤ◌, ◌≤ℤ◌}
use iop.Types.Subnet.{SubnetDetail}
use iop.Address.{prefix_of, is_ip_in_cidr}

-- `prefix > bestPrefix`, false of NaN.
abbrev pub exceeds : Option ℤ → ℤ → Bool
exceeds none best_prefix = false
exceeds (some p) best_prefix = ltb_ℤ best_prefix p

-- The value that `bestPrefix = prefix` stores, where the test above has passed.
abbrev pub stored : Option ℤ → ℤ → ℤ
stored none best_prefix = best_prefix
stored (some p) best_prefix = p

-- The loop, with `best` and `bestPrefix` as they stand before the subnets that are left.
pub longest_from : Text → Option SubnetDetail → ℤ → List SubnetDetail → Option SubnetDetail
longest_from ip best best_prefix [] = best
longest_from ip best best_prefix (s ∷ rest) =
    let better = exceeds (prefix_of s.cidr) best_prefix && is_ip_in_cidr ip s.cidr in
    longest_from ip (if better then some s else best)
      (if better then stored (prefix_of s.cidr) best_prefix else best_prefix) rest

unfoldable pub find_subnet_for_ip : Text → List SubnetDetail → Option SubnetDetail
unfolding longest_from
find_subnet_for_ip ip subnets = longest_from ip none (negsuc 0) subnets

-- The subnet contains the address, and has a prefix length that is a number from 0 up.
pub record Covers (ip : Text) (s : SubnetDetail) (p : ℕ) : Type 0 where
  pub known : prefix_of s.cidr ≡ some (pos p)
  pub inside : is_ip_in_cidr ip s.cidr ≡ true

-- No listed subnet contains the address with a prefix length above the bound.
abbrev pub IsLongest : Text → ℤ → List SubnetDetail → Type 0
IsLongest ip bound = All (λ t. (q : ℕ) → Covers ip t q → pos q ≤ℤ bound)

-- What the loop returns: the subnet it held, or a listed one with a greater prefix length.
abbrev Outcome : Text → Option SubnetDetail → ℤ → List SubnetDetail → Option SubnetDetail → Type 0
Outcome ip best best_prefix subnets none = (best ≡ none) × IsLongest ip best_prefix subnets
Outcome ip best best_prefix subnets (some s) =
    ((best ≡ some s) × IsLongest ip best_prefix subnets)
    ⊎ ((p : ℕ) × Member s subnets
        × Covers ip s p
        × (best_prefix <ℤ pos p)
        × IsLongest ip (pos p) subnets)

-- The head of the list is passed over.
skip-Outcome :
    (ip : Text) (best : Option SubnetDetail) (best_prefix : ℤ) (s : SubnetDetail)
    (rest : List SubnetDetail) (r : Option SubnetDetail)
    → ((q : ℕ) → Covers ip s q → pos q ≤ℤ best_prefix)
    → Outcome ip best best_prefix rest r
    → Outcome ip best best_prefix (s ∷ rest) r
skip-Outcome ip best best_prefix s rest none low (e, l) = (e, (low, l))
skip-Outcome ip best best_prefix s rest (some t) low (inl (e, l)) = inl (e, (low, l))
skip-Outcome ip best best_prefix s rest (some t) low (inr (p, m, c, lt, l)) =
    inr (p, inr m, c, lt, ((λ q cq. omega (arith, low q cq)), l))

Covers-eq : {ip : Text} {s : SubnetDetail} (p q : ℕ) → Covers ip s p → Covers ip s q → p ≡ q
Covers-eq p q c d = cc (c.known, d.known)

-- The head of the list becomes the best so far.
choose-Outcome :
    (ip : Text) (best : Option SubnetDetail) (best_prefix : ℤ) (s : SubnetDetail)
    (rest : List SubnetDetail) (r : Option SubnetDetail) (n : ℕ)
    → Covers ip s n
    → best_prefix <ℤ pos n
    → Outcome ip (some s) (pos n) rest r
    → Outcome ip best best_prefix (s ∷ rest) r
choose-Outcome ip best best_prefix s rest none n c lt (e, l) = cc e
choose-Outcome ip best best_prefix s rest (some t) n c lt (inl (e, l)) =
    let same : s ≡ t = cc e in
    inr (n, inl (sym same), rw (← same) c, lt, ((λ q d. omega (arith, Covers-eq n q c d)), l))
choose-Outcome ip best best_prefix s rest (some t) n c lt (inr (p, m, d, up, l)) =
    inr (p, inr m, d, omega arith, ((λ q cq. omega (arith, Covers-eq n q c cq)), l))

-- A test that passed has read a prefix length from 0 up.
exceeds_pos :
    (o : Option ℤ) (best_prefix : ℤ)
    → negsuc 0 ≤ℤ best_prefix
    → exceeds o best_prefix ≡ true
    → (n : ℕ) × (o ≡ some (pos n)) × (best_prefix <ℤ pos n)
exceeds_pos none best_prefix h e = cc e
exceeds_pos (some (pos n)) best_prefix h e = (n, refl, ground arith)
exceeds_pos (some (negsuc n)) best_prefix h e = absurd (ground arith)

not_better :
    (ip : Text) (best_prefix : ℤ) (s : SubnetDetail)
    → (exceeds (prefix_of s.cidr) best_prefix && is_ip_in_cidr ip s.cidr) ≡ false
    → (q : ℕ) → Covers ip s q
    → pos q ≤ℤ best_prefix
not_better ip best_prefix s worse q c =
    let low : ltb_ℤ best_prefix (pos q) ≡ false = ground (arith, rw c.known at worse, c.inside) in
    ground arith

longest_from-Outcome :
    (ip : Text) (best : Option SubnetDetail) (best_prefix : ℤ) (subnets : List SubnetDetail)
    → negsuc 0 ≤ℤ best_prefix
    → Outcome ip best best_prefix subnets (longest_from ip best best_prefix subnets)
unfolding longest_from
longest_from-Outcome ip none best_prefix [] h = (refl, tt)
longest_from-Outcome ip (some s) best_prefix [] h = inl (refl, tt)
longest_from-Outcome ip best best_prefix (s ∷ rest) h =
    elim (Bool-cases (exceeds (prefix_of s.cidr) best_prefix && is_ip_in_cidr ip s.cidr)) [
      | inl better ↦
          let (up, inside) = and-eq-true _ _ better in
          let (n, known, lt) = exceeds_pos (prefix_of s.cidr) best_prefix h up in
          rw (better, known)
            (choose-Outcome ip best best_prefix s rest (longest_from ip (some s) (pos n) rest) n
              (record { known = known; inside = inside }) lt
              (longest_from-Outcome ip (some s) (pos n) rest (omega arith)))
      | inr worse ↦ rw worse (
          skip-Outcome ip best best_prefix s rest (longest_from ip best best_prefix rest)
            (not_better ip best_prefix s worse) (longest_from-Outcome ip best best_prefix rest h))
    ]

-- The subnet that the page takes for an address.
abbrev pub LongestMatch : Text → List SubnetDetail → Option SubnetDetail → Type 0
LongestMatch ip subnets none = All (λ t. (q : ℕ) → ¬ Covers ip t q) subnets
LongestMatch ip subnets (some s) =
    (p : ℕ) × Member s subnets × Covers ip s p × IsLongest ip (pos p) subnets

longest_of_Outcome :
    (ip : Text) (subnets : List SubnetDetail) (r : Option SubnetDetail)
    → Outcome ip none (negsuc 0) subnets r
    → LongestMatch ip subnets r
longest_of_Outcome ip subnets none (e, l) =
    All-mono (λ t. (q : ℕ) → Covers ip t q → pos q ≤ℤ negsuc 0) (λ t. (q : ℕ) → ¬ Covers ip t q)
      (λ t below q c. absurd (omega (arith, below q c))) subnets l
longest_of_Outcome ip subnets (some s) (inl (e, l)) = cc e
longest_of_Outcome ip subnets (some s) (inr (p, m, c, lt, l)) = (p, m, c, l)

-- The lookup returns a listed subnet that contains the address and whose prefix length no other
-- listed subnet that contains it exceeds; it returns null exactly where no listed subnet with a
-- readable prefix length contains the address.
pub find_subnet_for_ip-LongestMatch :
    (ip : Text) (subnets : List SubnetDetail)
    → LongestMatch ip subnets (find_subnet_for_ip ip subnets)
unfolding find_subnet_for_ip
find_subnet_for_ip-LongestMatch ip subnets =
    longest_of_Outcome ip subnets (longest_from ip none (negsuc 0) subnets)
      (longest_from-Outcome ip none (negsuc 0) subnets (omega arith))
