-- ===== src/Scan/Groups/Shape.antt =====
-- What a group of a review holds.
use iop.Base.{
  ◌≡◌, refl, ap, ◌∙◌, sym, ◌⊎◌, inl, inr, Bool, true, false, ◌||◌, List, [], ◌∷◌, ◌++◌, map, Option,
  none, some, Text, find, filter, filter-append, includes, Distinct, text_eq, ◌==◌, All, All-append,
  Bool-cases, apply_same, same_comm, eq_self, arith,
}
use mathlib.Core.List.{append-nil, append_assoc}
use mathlib.Core.Path.{subst}
use iop.Types.Subnet.{SubnetDetail}
use iop.Text.Search.{is_empty}
use iop.Scan.Page.{ScanRow}
use iop.Scan.Groups.{
  SubnetGroup, GroupMap, is_unmatched, with_row, add_row, collect_row, collect, group_cidr, values,
  unmatched_group, insert_group, sort_groups, groups,
}

-- A row with the given subnet id.
abbrev pub has_id : Text → Option Text → Bool
has_id id none = false
has_id id (some j) = id == j

abbrev pub of_id : Text → ScanRow → Bool
of_id id r = has_id id r.subnet_id

abbrev pub unplaced : ScanRow → Bool
unplaced r = is_unmatched r.subnet_id

-- A key of the map is a text that is not empty; a row is in the group of its id.
abbrev listed_ids : GroupMap → List Text
listed_ids m = map (λ e. e.0) m

filter-in :
    (p : ScanRow → Bool) (rows : List ScanRow) (r : ScanRow)
    → p r ≡ true
    → filter p (rows ++ r ∷ []) ≡ filter p rows ++ r ∷ []
filter-in p rows r e = filter-append p rows (r ∷ []) ∙ rw e refl

filter-out :
    (p : ScanRow → Bool) (rows : List ScanRow) (r : ScanRow)
    → p r ≡ false
    → filter p (rows ++ r ∷ []) ≡ filter p rows
filter-out p rows r e = filter-append p rows (r ∷ []) ∙ rw e (append-nil (filter p rows))

module _ (subnets : List SubnetDetail) where
  -- A group of a subnet: the first listed one with an id that is not empty, and exactly those of
  -- the rows that have this id, in their order.
  pub record IsOf (rows : List ScanRow) (id : Text) (g : SubnetGroup) : Type 0 where
    pub set : is_empty id ≡ false
    pub listed : g.subnet ≡ find (λ s. s.id == id) subnets
    pub held : g.rows ≡ filter (of_id id) rows

  -- A group of one subnet, or the group of all rows without one.
  abbrev pub IsGroup : List ScanRow → SubnetGroup → Type 0
  IsGroup rows g =
      ((id : Text) × IsOf rows id g) ⊎ ((g.subnet ≡ none) × (g.rows ≡ filter unplaced rows))

  abbrev Entry : List ScanRow → Text × SubnetGroup → Type 0
  Entry rows e = IsOf rows e.0 e.1

  -- After the rows that were collected: the entries hold their rows, under different keys, and no
  -- row of a key that is not listed was collected.
  record Held (rows : List ScanRow) (m : GroupMap) : Type 0 where
    entries : All (Entry rows) m
    distinct : Distinct (listed_ids m)
    absent :
        (id : Text)
        → is_empty id ≡ false
        → includes (listed_ids m) id ≡ false
        → filter (of_id id) rows ≡ []

  with_row-IsOf :
      (rows : List ScanRow) (id : Text) (r : ScanRow) (g : SubnetGroup)
      → of_id id r ≡ true
      → IsOf rows id g
      → IsOf (rows ++ r ∷ []) id (with_row r g)
  with_row-IsOf rows id r g e h = record {
    set = h.set;
    listed = h.listed;
    held = ap (λ rs. rs ++ r ∷ []) h.held ∙ sym (filter-in (of_id id) rows r e);
  }

  other-IsOf :
      (rows : List ScanRow) (id : Text) (r : ScanRow) (g : SubnetGroup)
      → of_id id r ≡ false
      → IsOf rows id g
      → IsOf (rows ++ r ∷ []) id g
  other-IsOf rows id r g e h = record {
    set = h.set;
    listed = h.listed;
    held = h.held ∙ sym (filter-out (of_id id) rows r e);
  }

  -- A row of another id than those of the entries.
  others-Entry :
      (rows : List ScanRow) (id : Text) (r : ScanRow) (m : GroupMap)
      → r.subnet_id ≡ some id
      → includes (listed_ids m) id ≡ false
      → All (Entry rows) m
      → All (Entry (rows ++ r ∷ [])) m
  others-Entry rows id r [] e unlisted h = tt
  others-Entry rows id r ((j, g) ∷ m) e unlisted (hg, hm) = (
    other-IsOf rows j r g (ap (has_id j) e ∙ ground arith) hg,
    others-Entry rows id r m e (ground arith) hm,
  )

  add_row-Entry :
      (rows : List ScanRow) (id : Text) (r : ScanRow) (m : GroupMap)
      → is_empty id ≡ false
      → r.subnet_id ≡ some id
      → Distinct (listed_ids m)
      → (includes (listed_ids m) id ≡ false → filter (of_id id) rows ≡ [])
      → All (Entry rows) m
      → All (Entry (rows ++ r ∷ [])) (add_row subnets id r m)
  unfolding add_row
  add_row-Entry rows id r [] full e d absent h = (
    record {
      set = full;
      listed = refl;
      held = sym (
          filter-in (of_id id) rows r (ap (has_id id) e ∙ eq_self id)
          ∙ ap (λ rs. rs ++ r ∷ []) (absent refl));
    },
    tt,
  )
  add_row-Entry rows id r ((j, g) ∷ m) full e d absent (hg, hm) = elim (Bool-cases (j == id)) [
    | inl same ↦ rw same (
      with_row-IsOf rows j r g (ap (has_id j) e ∙ same) hg,
      others-Entry rows id r m e (sym (apply_same (λ k. includes (listed_ids m) k) j id same) ∙ d.0)
          hm,
    )
    | inr other ↦ rw other (
      other-IsOf rows j r g (ap (has_id j) e ∙ other) hg,
      add_row-Entry rows id r m full e d.1 (λ unlisted. absent (ground arith)) hm,
    )
  ]

  includes-add_row :
      (id : Text) (r : ScanRow) (m : GroupMap) (x : Text)
      → includes (listed_ids (add_row subnets id r m)) x ≡ (includes (listed_ids m) x || (id == x))
  unfolding add_row
  includes-add_row id r [] x = ground arith
  includes-add_row id r ((j, g) ∷ m) x = elim (Bool-cases (j == id)) [
    | inl same ↦ rw same (ground (arith, apply_same (λ k. k == x) j id same))
    | inr other ↦ rw other (ground (arith, includes-add_row id r m x))
  ]

  Distinct-add_row :
      (id : Text) (r : ScanRow) (m : GroupMap)
      → Distinct (listed_ids m)
      → Distinct (listed_ids (add_row subnets id r m))
  unfolding add_row
  Distinct-add_row id r [] d = (refl, tt)
  Distinct-add_row id r ((j, g) ∷ m) d = elim (Bool-cases (j == id)) [
    | inl same ↦ rw same d
    | inr other ↦ rw other (
      ground (arith, includes-add_row id r m j, d.0, same_comm id j),
      Distinct-add_row id r m d.1,
    )
  ]

  collect_full :
      (rows : List ScanRow) (id : Text) (r : ScanRow) (m : GroupMap)
      → is_empty id ≡ false
      → r.subnet_id ≡ some id
      → Held rows m
      → Held (rows ++ r ∷ []) (add_row subnets id r m)
  collect_full rows id r m full e h = record {
    entries =
        add_row-Entry rows id r m full e h.distinct (λ unlisted. h.absent id full unlisted)
          h.entries;
    distinct = Distinct-add_row id r m h.distinct;
    absent = λ x set unlisted.
        let apart = includes-add_row id r m x in
        filter-out (of_id x) rows r (ap (has_id x) e ∙ ground (arith, same_comm x id))
        ∙ h.absent x set (ground arith);
  }

  -- A row without a subnet is in no group of one.
  no_id :
      (x : Text) (o : Option Text) → is_empty x ≡ false → is_unmatched o ≡ true → has_id x o ≡ false
  no_id x none set h = refl
  no_id [] (some id) set h = absurd (ground arith)
  no_id (c ∷ cs) (some []) set h = refl
  no_id (c ∷ cs) (some (d ∷ ds)) set h = absurd (ground arith)

  unplaced-Entry :
      (rows : List ScanRow) (r : ScanRow) (m : GroupMap)
      → unplaced r ≡ true
      → All (Entry rows) m
      → All (Entry (rows ++ r ∷ [])) m
  unplaced-Entry rows r [] e h = tt
  unplaced-Entry rows r ((j, g) ∷ m) e (hg, hm) =
      (other-IsOf rows j r g (no_id j r.subnet_id hg.set e) hg, unplaced-Entry rows r m e hm)

  collect_unplaced :
      (rows : List ScanRow) (r : ScanRow) (m : GroupMap)
      → unplaced r ≡ true
      → Held rows m
      → Held (rows ++ r ∷ []) m
  collect_unplaced rows r m e h = record {
    entries = unplaced-Entry rows r m e h.entries;
    distinct = h.distinct;
    absent = λ x set unlisted.
        filter-out (of_id x) rows r (no_id x r.subnet_id set e) ∙ h.absent x set unlisted;
  }

  -- The groups and the rows without one, after the rows that were collected.
  abbrev Collected : List ScanRow → GroupMap × List ScanRow → Type 0
  Collected rows acc = Held rows acc.0 × (acc.1 ≡ filter unplaced rows)

  collect_row-Collected :
      (o : Option Text) (rows : List ScanRow) (r : ScanRow) (acc : GroupMap × List ScanRow)
      → r.subnet_id ≡ o
      → Collected rows acc
      → Collected (rows ++ r ∷ []) (collect_row subnets o r acc)
  unfolding collect_row
  collect_row-Collected none rows r (m, u) e (hm, hu) =
      let off : unplaced r ≡ true = ap is_unmatched e in
      (
        collect_unplaced rows r m off hm,
        ap (λ rs. rs ++ r ∷ []) hu ∙ sym (filter-in unplaced rows r off),
      )
  collect_row-Collected (some id) rows r (m, u) e (hm, hu) = elim (Bool-cases (is_empty id)) [
    | inl empty ↦
        let off : unplaced r ≡ true = ap is_unmatched e ∙ empty in
        rw empty (
          collect_unplaced rows r m off hm,
          ap (λ rs. rs ++ r ∷ []) hu ∙ sym (filter-in unplaced rows r off),
        )
    | inr full ↦
        let placed : unplaced r ≡ false = ap is_unmatched e ∙ full in
        rw full (collect_full rows id r m full e hm, hu ∙ sym (filter-out unplaced rows r placed))
  ]

  collect-Collected :
      (done rs : List ScanRow) (acc : GroupMap × List ScanRow)
      → Collected done acc
      → Collected (done ++ rs) (collect subnets rs acc)
  unfolding collect
  collect-Collected done [] acc h = subst (λ rows. Collected rows acc) (sym (append-nil done)) h
  collect-Collected done (r ∷ rs) acc h =
      subst (λ rows. Collected rows (collect subnets (r ∷ rs) acc)) (append_assoc done (r ∷ []) rs)
        (collect-Collected (done ++ r ∷ []) rs (collect_row subnets r.subnet_id r acc)
          (collect_row-Collected r.subnet_id done r acc refl h))

  values-IsGroup :
      (rows : List ScanRow) (m : GroupMap) → All (Entry rows) m → All (IsGroup rows) (values m)
  values-IsGroup rows [] h = tt
  values-IsGroup rows ((j, g) ∷ m) (hg, hm) = (inl (j, hg), values-IsGroup rows m hm)

  insert_group-All :
      (rows : List ScanRow) (before : Text → Text → Bool) (g : SubnetGroup) (gs : List SubnetGroup)
      → IsGroup rows g
      → All (IsGroup rows) gs
      → All (IsGroup rows) (insert_group before g gs)
  unfolding insert_group
  insert_group-All rows before g [] hg hs = (hg, tt)
  insert_group-All rows before g (k ∷ ks) hg (hk, hs) =
      elim (Bool-cases (before (group_cidr g) (group_cidr k))) [
        | inl first ↦ rw first (hg, (hk, hs))
        | inr later ↦ rw later (hk, insert_group-All rows before g ks hg hs)
      ]

  sort_groups-All :
      (rows : List ScanRow) (before : Text → Text → Bool) (gs : List SubnetGroup)
      → All (IsGroup rows) gs
      → All (IsGroup rows) (sort_groups before gs)
  unfolding sort_groups
  sort_groups-All rows before [] h = tt
  sort_groups-All rows before (g ∷ gs) (hg, hs) =
      insert_group-All rows before g (sort_groups before gs) hg (sort_groups-All rows before gs hs)

  unmatched_group-All :
      (rows u : List ScanRow) → u ≡ filter unplaced rows → All (IsGroup rows) (unmatched_group u)
  unmatched_group-All rows [] h = tt
  unmatched_group-All rows (r ∷ rs) h = (inr (refl, h), tt)

  -- Every group is that of one subnet id, which is not empty: it stands under the subnet that is
  -- listed with this id and holds exactly the rows of the review that have the id, in their order;
  -- or it is the group under no subnet, which holds exactly the rows without an id.
  pub groups-IsGroup :
      (before : Text → Text → Bool) (rows : List ScanRow)
      → All (IsGroup rows) (groups before subnets rows)
  unfolding groups
  groups-IsGroup before rows =
      let acc = collect subnets rows ([], []) in
      let h =
        collect-Collected [] rows ([], [])
          (record { entries = tt; distinct = tt; absent = λ id set unlisted. refl }, refl) in
      All-append (IsGroup rows) (sort_groups before (values acc.0)) (unmatched_group acc.1)
        (sort_groups-All rows before (values acc.0) (values-IsGroup rows acc.0 h.0.entries))
        (unmatched_group-All rows acc.1 h.1)
