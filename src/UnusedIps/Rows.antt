-- ===== src/UnusedIps/Rows.antt =====
-- The rows with the most unused addresses come first, and the first of them is the roomiest subnet.
use iop.Base.{
  ℕ, ◌+◌, ◌≤◌, ◌≡◌, refl, ap, sym, ◌∙◌, inl, inr, List, [], ◌∷◌, Option, none, some, leb, leb_iff,
  ltb, if◌then◌else◌, arith, Bool-cases, All, All-mono,
}
use iop.UnusedIps.{SubnetRow, insert_row, sort_rows, total_unused, roomiest_from, roomiest_subnet}

abbrev pub HasAtMost : ℕ → List SubnetRow → Type 0
HasAtMost n rows = All (λ (r : SubnetRow). r.unused ≤ n) rows

abbrev pub IsSorted : List SubnetRow → Type 0
IsSorted [] = Unit
IsSorted (r ∷ rs) = HasAtMost r.unused rs × IsSorted rs

abbrev pub head? : List SubnetRow → Option SubnetRow
head? [] = none
head? (r ∷ rs) = some r

-- The first row with the most unused addresses of a row and of what follows it.
abbrev better : SubnetRow → Option SubnetRow → SubnetRow
better b none = b
better b (some s) = if leb s.unused b.unused then b else s

head?-insert_row :
    (r : SubnetRow) (rows : List SubnetRow)
    → head? (insert_row r rows) ≡ some (better r (head? rows))
unfolding insert_row
head?-insert_row r [] = refl
head?-insert_row r (s ∷ rs) = elim (Bool-cases (leb s.unused r.unused)) [
  | inl e ↦ rw e refl
  | inr e ↦ rw e refl
]

better-better :
    (b x : SubnetRow) (h : Option SubnetRow)
    → better (if ltb b.unused x.unused then x else b) h ≡ better b (some (better x h))
better-better b x none = ground arith
better-better b x (some s) = elim (Bool-cases (ltb b.unused x.unused)) [
  | inl more ↦ rw more (elim (Bool-cases (leb s.unused x.unused)) [
    | inl e ↦ rw e (ground (arith))
    | inr e ↦ rw e (ground (arith))
  ])
  | inr fewer ↦ rw fewer (elim (Bool-cases (leb s.unused x.unused)) [
    | inl e ↦ rw e (ground (arith))
    | inr e ↦ rw e (ground (arith))
  ])
]

roomiest_from_lem :
    (b : SubnetRow) (rows : List SubnetRow)
    → roomiest_from b rows ≡ better b (head? (sort_rows rows))
unfolding roomiest_from sort_rows
roomiest_from_lem b [] = refl
roomiest_from_lem b (x ∷ rows) =
    roomiest_from_lem (if ltb b.unused x.unused then x else b) rows
    ∙ better-better b x (head? (sort_rows rows))
    ∙ ap (better b) (sym (head?-insert_row x (sort_rows rows)))

HasAtMost-insert_row :
    (n : ℕ) (r : SubnetRow) (rows : List SubnetRow)
    → r.unused ≤ n
    → HasAtMost n rows
    → HasAtMost n (insert_row r rows)
unfolding insert_row
HasAtMost-insert_row n r [] h hs = (h, tt)
HasAtMost-insert_row n r (s ∷ rs) h hs = elim (Bool-cases (leb s.unused r.unused)) [
  | inl e ↦ rw e (h, hs)
  | inr e ↦ rw e (hs.0, HasAtMost-insert_row n r rs h hs.1)
]

IsSorted-insert_row :
    (r : SubnetRow) (rows : List SubnetRow) → IsSorted rows → IsSorted (insert_row r rows)
unfolding insert_row
IsSorted-insert_row r [] h = (tt, tt)
IsSorted-insert_row r (s ∷ rs) h = elim (Bool-cases (leb s.unused r.unused)) [
  | inl e ↦
      let below = (leb_iff s.unused r.unused).0 e in
      rw e (
        (
          below,
          All-mono (λ (t : SubnetRow). t.unused ≤ s.unused) (λ (t : SubnetRow). t.unused ≤ r.unused)
              (λ t k. omega (arith, k, below)) rs h.0,
        ),
        h,
      )
  | inr e ↦
      rw e (HasAtMost-insert_row s.unused r rs (ground (arith)) h.0, IsSorted-insert_row r rs h.1)
]

IsSorted-sort_rows : (rows : List SubnetRow) → IsSorted (sort_rows rows)
unfolding sort_rows
IsSorted-sort_rows [] = tt
IsSorted-sort_rows (r ∷ rs) = IsSorted-insert_row r (sort_rows rs) (IsSorted-sort_rows rs)

total_unused-insert_row :
    (r : SubnetRow) (rows : List SubnetRow)
    → total_unused (insert_row r rows) ≡ r.unused + total_unused rows
unfolding insert_row total_unused
total_unused-insert_row r [] = refl
total_unused-insert_row r (s ∷ rs) = elim (Bool-cases (leb s.unused r.unused)) [
  | inl e ↦ rw e refl
  | inr e ↦ rw e (omega (arith, total_unused-insert_row r rs))
]

total_unused-sort_rows : (rows : List SubnetRow) → total_unused (sort_rows rows) ≡ total_unused rows
unfolding sort_rows total_unused
total_unused-sort_rows [] = refl
total_unused-sort_rows (r ∷ rs) =
    omega (arith, total_unused-insert_row r (sort_rows rs), total_unused-sort_rows rs)

roomiest_lem : (rows : List SubnetRow) → roomiest_subnet rows ≡ head? (sort_rows rows)
unfolding roomiest_subnet sort_rows
roomiest_lem [] = refl
roomiest_lem (r ∷ rs) = ap some (roomiest_from_lem r rs) ∙ sym (head?-insert_row r (sort_rows rs))

-- The cards stand in order of their unused addresses, the most first, with the same total; and the
-- subnet named as the roomiest is that of the first card, where no search is typed.
pub sort_rows_lem :
    (rows : List SubnetRow)
    → IsSorted (sort_rows rows)
      × (total_unused (sort_rows rows) ≡ total_unused rows)
      × (roomiest_subnet rows ≡ head? (sort_rows rows))
sort_rows_lem rows = (IsSorted-sort_rows rows, total_unused-sort_rows rows, roomiest_lem rows)
