-- ===== src/Scan/Groups/Partition.antt =====
-- The groups of a review partition its rows.
use iop.Base.{
  ℕ, ◌+◌, ◌≡◌, refl, inl, inr, Bool, List, [], ◌∷◌, ◌++◌, Option, none, some, arith, Text, text_eq,
  ◌==◌, Bool-cases,
}
use iop.Types.Subnet.{SubnetDetail}
use iop.Text.Search.{is_empty}
use iop.Scan.Page.{ScanRow}
use iop.Scan.Groups.{
  SubnetGroup, GroupMap, add_row, collect_row, collect, group_cidr, values, unmatched_group,
  rows_of, count_if, insert_group, sort_groups, groups,
}

module _ (q : ScanRow → Bool) where
  count_if-append : (xs ys : List ScanRow) → count_if q (xs ++ ys) ≡ count_if q xs + count_if q ys
  count_if-append [] ys = omega arith
  count_if-append (x ∷ xs) ys = ground (arith, count_if-append xs ys)

  pub count_if-rows_of :
      (gs hs : List SubnetGroup)
      → count_if q (rows_of (gs ++ hs)) ≡ count_if q (rows_of gs) + count_if q (rows_of hs)
  unfolding rows_of
  count_if-rows_of [] hs = omega arith
  count_if-rows_of (g ∷ gs) hs = omega (
    arith,
    count_if-append g.rows (rows_of (gs ++ hs)),
    count_if-append g.rows (rows_of gs),
    count_if-rows_of gs hs,
  )

  count_if-insert_group :
      (before : Text → Text → Bool) (g : SubnetGroup) (gs : List SubnetGroup)
      → count_if q (rows_of (insert_group before g gs))
        ≡ count_if q g.rows + count_if q (rows_of gs)
  unfolding insert_group rows_of
  count_if-insert_group before g [] = count_if-append g.rows []
  count_if-insert_group before g (h ∷ hs) =
      elim (Bool-cases (before (group_cidr g) (group_cidr h))) [
        | inl first ↦ rw first (count_if-append g.rows (h.rows ++ rows_of hs))
        | inr later ↦ rw later (
            omega (
              arith,
              count_if-append h.rows (rows_of (insert_group before g hs)),
              count_if-append h.rows (rows_of hs),
              count_if-insert_group before g hs,
            ))
      ]

  count_if-sort_groups :
      (before : Text → Text → Bool) (gs : List SubnetGroup)
      → count_if q (rows_of (sort_groups before gs)) ≡ count_if q (rows_of gs)
  unfolding sort_groups rows_of
  count_if-sort_groups before [] = refl
  count_if-sort_groups before (g ∷ gs) = omega (
    arith,
    count_if-insert_group before g (sort_groups before gs),
    count_if-append g.rows (rows_of gs),
    count_if-sort_groups before gs,
  )

  count_if-add_row :
      (subnets : List SubnetDetail) (id : Text) (r : ScanRow) (m : GroupMap)
      → count_if q (rows_of (values (add_row subnets id r m)))
        ≡ count_if q (rows_of (values m)) + count_if q (r ∷ [])
  unfolding add_row rows_of
  count_if-add_row subnets id r [] = omega (arith, count_if-append (r ∷ []) [])
  count_if-add_row subnets id r ((j, g) ∷ m) = elim (Bool-cases (j == id)) [
    | inl same ↦ rw same (
        omega (
          arith,
          count_if-append (g.rows ++ r ∷ []) (rows_of (values m)),
          count_if-append g.rows (r ∷ []),
          count_if-append g.rows (rows_of (values m)),
        ))
    | inr other ↦ rw other (
        omega (
          arith,
          count_if-append g.rows (rows_of (values (add_row subnets id r m))),
          count_if-append g.rows (rows_of (values m)),
          count_if-add_row subnets id r m,
        ))
  ]

  -- The rows in the map and those that are unmatched.
  abbrev held : GroupMap × List ScanRow → ℕ
  held acc = count_if q (rows_of (values acc.0)) + count_if q acc.1

  held-collect_row :
      (subnets : List SubnetDetail) (o : Option Text) (r : ScanRow) (acc : GroupMap × List ScanRow)
      → held (collect_row subnets o r acc) ≡ held acc + count_if q (r ∷ [])
  unfolding collect_row
  held-collect_row subnets none r (m, u) = omega (arith, count_if-append u (r ∷ []))
  held-collect_row subnets (some id) r (m, u) = elim (Bool-cases (is_empty id)) [
    | inl e ↦ rw e (omega (arith, count_if-append u (r ∷ [])))
    | inr e ↦ rw e (omega (arith, count_if-add_row subnets id r m))
  ]

  held-collect :
      (subnets : List SubnetDetail) (rs : List ScanRow) (acc : GroupMap × List ScanRow)
      → held (collect subnets rs acc) ≡ held acc + count_if q rs
  unfolding collect
  held-collect subnets [] acc = omega arith
  held-collect subnets (r ∷ rs) acc = omega (
    arith,
    held-collect subnets rs (collect_row subnets r.subnet_id r acc),
    held-collect_row subnets r.subnet_id r acc,
    count_if-append (r ∷ []) rs,
  )

  count_if-unmatched_group :
      (u : List ScanRow) → count_if q (rows_of (unmatched_group u)) ≡ count_if q u
  unfolding rows_of
  count_if-unmatched_group [] = refl
  count_if-unmatched_group (r ∷ rs) = omega (arith, count_if-append (r ∷ rs) [])

-- However the groups are ordered, every row of the review stands in exactly one of them: for any
-- test on rows, as many rows of the groups pass it as rows of the review.
pub count_if-groups :
    (before : Text → Text → Bool) (subnets : List SubnetDetail) (rows : List ScanRow)
    (q : ScanRow → Bool)
    → count_if q (rows_of (groups before subnets rows)) ≡ count_if q rows
unfolding groups rows_of
count_if-groups before subnets rows q =
    let (m, u) = collect subnets rows ([], []) in
    omega (
      arith,
      count_if-rows_of q (sort_groups before (values m)) (unmatched_group u),
      count_if-sort_groups q before (values m),
      count_if-unmatched_group q u,
      held-collect q subnets rows ([], []),
    )
