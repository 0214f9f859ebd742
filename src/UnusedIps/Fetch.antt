-- ===== src/UnusedIps/Fetch.antt =====
-- The loop that fetches every subnet ends, with all of them.
use iop.Base.{
  ℕ, zero, suc, ◌+◌, ◌-◌, ◌*◌, ◌/◌, ◌≤◌, ◌<◌, ◌≡◌, refl, sym, ap, ◌∙◌, inl, inr, Bool, true, false,
  ◌||◌, List, [], ◌∷◌, ◌++◌, some, length, length-append, leb, leb_iff, ◌⊎◌, take, drop,
  take-append-drop, if◌then◌else◌, arith, Bool-cases,
}
use mathlib.Core.List.{append_assoc, append-nil}
use iop.Types.Record.{PaginatedResponse}
use iop.Types.Subnet.{SubnetDetail}
use iop.Api.{Response, resolved}
use iop.UnusedIps.{fetch_from, fetch_all_subnets, is_last}

abbrev page_at : List SubnetDetail → ℕ → ℕ → PaginatedResponse SubnetDetail
page_at xs skipped page = record {
  items = take 200 (drop (skipped * 200) xs);
  total = length xs;
  page = page;
  page_size = 200;
  pages = (length xs + 199) / 200;
}

-- The page of a list, as the server answers it.
abbrev pub page_of : List SubnetDetail → ℕ → PaginatedResponse SubnetDetail
page_of xs page = page_at xs (page - 1) page

length-take : (n : ℕ) (xs : List SubnetDetail) → length (take n xs) + length (drop n xs) ≡ length xs
length-take n xs = sym (length-append (take n xs) (drop n xs)) ∙ ap length (take-append-drop n xs)

length-drop : (n : ℕ) (xs : List SubnetDetail) → length (drop n xs) ≡ length xs - n
length-drop zero xs = omega arith
length-drop (suc n) [] = omega arith
length-drop (suc n) (x ∷ xs) = omega (arith, length-drop n xs)

drop-none : (n : ℕ) → drop {A = SubnetDetail} n [] ≡ []
drop-none zero = refl
drop-none (suc n) = refl

drop-drop : (m n : ℕ) (xs : List SubnetDetail) → drop n (drop m xs) ≡ drop (m + n) xs
drop-drop zero n xs = ap (λ (k : ℕ). drop k xs) (omega arith)
drop-drop (suc m) n [] = drop-none n ∙ sym (drop-none (suc m + n))
drop-drop (suc m) n (x ∷ xs) = drop-drop m n xs ∙ ap (λ (k : ℕ). drop k (x ∷ xs)) (shift m n)
  where
    shift : (m n : ℕ) → suc (m + n) ≡ suc m + n
    shift m n = omega arith

no_elements : (xs : List SubnetDetail) → length xs ≡ 0 → xs ≡ []
no_elements [] h = refl
no_elements (x ∷ xs) h = absurd (omega (arith, h))

or-cases : (a b : Bool) → (a || b) ≡ true → (a ≡ true) ⊎ (b ≡ true)
or-cases true b h = inl refl
or-cases false b h = inr h

or-false : (a b : Bool) → (a || b) ≡ false → a ≡ false
or-false true b h = h
or-false false b h = refl

leb-false : (a b : ℕ) → leb a b ≡ false → b < a
leb-false a b h = ground (arith)

nonempty-take : (d : List SubnetDetail) → length (take 200 d) ≡ 0 → length d ≡ 0
nonempty-take [] h = refl
nonempty-take (x ∷ d) h = absurd (omega (arith, h))

module _ (list : ℕ → Response (PaginatedResponse SubnetDetail)) (xs : List SubnetDetail) where
  abbrev pub Serves : Type 0
  Serves = (page : ℕ) → 1 ≤ page → list page ≡ resolved (page_of xs page)

  serves_at : (q : ℕ) → Serves → list (suc q) ≡ resolved (page_at xs q (suc q))
  serves_at q serves =
      serves (suc q) (omega arith) ∙ ap (λ (k : ℕ). resolved (page_at xs k (suc q))) (omega arith)

  fetch_from_round :
      (n q : ℕ) (all : List SubnetDetail)
      → Serves
      → fetch_from list (suc n) (suc q) all ≡ (
          if is_last (all ++ take 200 (drop (q * 200) xs)) (page_at xs q (suc q))
          then some (resolved (all ++ take 200 (drop (q * 200) xs)))
          else fetch_from list n (suc q + 1) (all ++ take 200 (drop (q * 200) xs)))
  unfolding fetch_from
  fetch_from_round n q all serves = rw (fetch_from, serves_at q serves) refl

  -- The elements so far and the rest of the page, where `d` is what the server still has.
  complete :
      (all d : List SubnetDetail)
      → all ++ d ≡ xs
      → length xs ≤ length (all ++ take 200 d)
      → all ++ take 200 d ≡ xs
  complete all d whole enough =
      let parts = length-take 200 d in
      let so_far = length-append all (take 200 d) in
      let in_all = length-append all d in
      let total = ap length whole in
      let rest : drop 200 d ≡ [] =
        no_elements (drop 200 d) (omega (arith, parts, so_far, in_all, total, enough)) in
      ap (λ (r : List SubnetDetail). all ++ r)
        (sym (append-nil (take 200 d))
          ∙ ap (λ (r : List SubnetDetail). take 200 d ++ r) (sym rest)
          ∙ take-append-drop 200 d)
      ∙ whole

  -- A last round has all elements: an empty page only comes when nothing is left.
  enough :
      (all d : List SubnetDetail)
      → all ++ d ≡ xs
      → (leb (length xs) (length (all ++ take 200 d)) || leb (length (take 200 d)) 0) ≡ true
      → length xs ≤ length (all ++ take 200 d)
  enough all d whole e =
      elim (or-cases (leb (length xs) (length (all ++ take 200 d))) (leb (length (take 200 d)) 0)
        e) [
          | inl a ↦ (leb_iff (length xs) (length (all ++ take 200 d))).0 a
          | inr b ↦
              let empty = (leb_iff (length (take 200 d)) 0).0 b in
              let none_left = nonempty-take d (omega (arith, empty)) in
              let so_far = length-append all (take 200 d) in
              let in_all = length-append all d in
              let total = ap length whole in omega (arith, none_left, so_far, in_all, total)
        ]

  -- Where the round is not the last, more than a page was left.
  more_than_page :
      (all d : List SubnetDetail)
      → all ++ d ≡ xs
      → (leb (length xs) (length (all ++ take 200 d)) || leb (length (take 200 d)) 0) ≡ false
      → 200 < length d
  more_than_page all d whole e =
      let less = leb-false (length xs) (length (all ++ take 200 d)) (or-false _ _ e) in
      let parts = length-take 200 d in
      let dropped = length-drop 200 d in
      let so_far = length-append all (take 200 d) in
      let in_all = length-append all d in
      let total = ap length whole in omega (arith, less, parts, dropped, so_far, in_all, total)

  next_whole :
      (q : ℕ) (all : List SubnetDetail)
      → all ++ drop (q * 200) xs ≡ xs
      → (all ++ take 200 (drop (q * 200) xs)) ++ drop (suc q * 200) xs ≡ xs
  next_whole q all whole =
      let d = drop (q * 200) xs in
      let further : drop 200 d ≡ drop (suc q * 200) xs =
        drop-drop (q * 200) 200 xs ∙ ap (λ (k : ℕ). drop k xs) (omega arith) in
      append_assoc all (take 200 d) (drop (suc q * 200) xs)
      ∙ ap (λ (r : List SubnetDetail). all ++ (take 200 d ++ r)) (sym further)
      ∙ ap (λ (r : List SubnetDetail). all ++ r) (take-append-drop 200 d)
      ∙ whole

  last_round :
      (n q : ℕ) (all : List SubnetDetail)
      → Serves
      → all ++ drop (q * 200) xs ≡ xs
      → is_last (all ++ take 200 (drop (q * 200) xs)) (page_at xs q (suc q)) ≡ true
      → fetch_from list (suc n) (suc q) all ≡ some (resolved xs)
  last_round n q all serves whole e =
      let d = drop (q * 200) xs in
      fetch_from_round n q all serves
      ∙ rw e (
          ap (λ (r : List SubnetDetail). some (resolved r))
            (complete all d whole (enough all d whole e)))

  other_round :
      (n q : ℕ) (all : List SubnetDetail)
      → Serves
      → is_last (all ++ take 200 (drop (q * 200) xs)) (page_at xs q (suc q)) ≡ false
      → fetch_from list (suc n) (suc q) all
        ≡ fetch_from list n (suc (suc q)) (all ++ take 200 (drop (q * 200) xs))
  other_round n q all serves e =
      fetch_from_round n q all serves
      ∙ rw e
          (ap (λ (k : ℕ). fetch_from list n k (all ++ take 200 (drop (q * 200) xs))) (omega arith))

  fetch_from_lem :
      (n q : ℕ) (all : List SubnetDetail)
      → Serves
      → all ++ drop (q * 200) xs ≡ xs
      → length (drop (q * 200) xs) ≤ (n + 1) * 200
      → fetch_from list (suc n) (suc q) all ≡ some (resolved xs)
  fetch_from_lem zero q all serves whole bound =
      let d = drop (q * 200) xs in
      elim (Bool-cases (is_last (all ++ take 200 d) (page_at xs q (suc q)))) [
        | inl e ↦ last_round zero q all serves whole e
        | inr e ↦ let more = more_than_page all d whole e in absurd (omega (arith, bound, more))
      ]
  fetch_from_lem (suc n) q all serves whole bound =
      let d = drop (q * 200) xs in
      let left = length-drop (suc q * 200) xs in
      let before = length-drop (q * 200) xs in
      elim (Bool-cases (is_last (all ++ take 200 d) (page_at xs q (suc q)))) [
        | inl e ↦ last_round (suc n) q all serves whole e
        | inr e ↦
            other_round (suc n) q all serves e
            ∙ fetch_from_lem n (suc q) (all ++ take 200 d) serves (next_whole q all whole)
                (omega (arith, left, before, bound))
      ]

  -- `fetchAllSubnets` ends after one round for each page, and one more for an empty list, and gives
  -- every subnet of the server once and in its order, where the server pages a list by 200.
  pub fetch_all_subnets_lem :
      (n : ℕ)
      → Serves
      → length xs ≤ (n + 1) * 200
      → fetch_all_subnets list (suc n) ≡ some (resolved xs)
  unfolding fetch_all_subnets
  fetch_all_subnets_lem n serves bound = fetch_from_lem n 0 [] serves refl bound
