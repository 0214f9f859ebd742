-- ===== src/Integrations/Chosen.antt =====
-- What the drawers of frontend/src/pages/Integrations have in common: the rows of the selected keys
-- are looked up one after the other, and an edit changes the rows of one key. The key of a row and
-- what is sent of it are parameters.
use iop.Base.{
  ◌≡◌, inl, inr, true, List, [], ◌∷◌, ◌++◌, Option, none, some, Text, text_eq, ◌==◌, includes, find,
  arith, Bool-cases, All, All-append, same_comm, length, length-append, ◌≤◌,
}

module _ {Row Item : Type 0} (key : Row → Text) (item : Row → List Item) where
  abbrev pub item_found : Option Row → List Item
  item_found none = []
  item_found (some r) = item r

  -- `selectedKeys.flatMap((key) => ...)`
  unfoldable pub chosen_items : List Text → List Row → List Item
  chosen_items [] rows = []
  chosen_items (k ∷ ks) rows = item_found (find (λ r. key r == k) rows) ++ chosen_items ks rows

  module _ {κ} (P : Item → Type κ) where
    All-item_found :
        (k : Text) (rows : List Row)
        → ((r : Row) → (key r == k) ≡ true → All P (item r))
        → All P (item_found (find (λ r. key r == k) rows))
    All-item_found k [] h = tt
    All-item_found k (r ∷ rows) h = elim (Bool-cases (key r == k)) [
      | inl same ↦ rw same (h r same)
      | inr other ↦ rw other (All-item_found k rows h)
    ]

    -- What holds of all that the selected rows give holds of all that is chosen.
    pub All-chosen_items :
        (ks : List Text) (rows : List Row)
        → ((r : Row) → includes ks (key r) ≡ true → All P (item r))
        → All P (chosen_items ks rows)
    unfolding chosen_items
    All-chosen_items [] rows h = tt
    All-chosen_items (k ∷ ks) rows h =
        All-append P (item_found (find (λ r. key r == k) rows)) (chosen_items ks rows)
          (All-item_found k rows (λ r same. h r (ground (arith, same_comm (key r) k))))
          (All-chosen_items ks rows (λ r there. h r (ground arith)))

  length-item_found :
      ((r : Row) → length (item r) ≤ 1) → (o : Option Row) → length (item_found o) ≤ 1
  length-item_found h none = omega arith
  length-item_found h (some r) = h r

  -- Where a row gives one item at most, no more are chosen than keys are selected.
  pub length-chosen_items :
      ((r : Row) → length (item r) ≤ 1)
      → (ks : List Text) (rows : List Row) → length (chosen_items ks rows) ≤ length ks
  unfolding chosen_items
  length-chosen_items h [] rows = omega arith
  length-chosen_items h (k ∷ ks) rows =
      let found = item_found (find (λ r. key r == k) rows) in
      let one = length-item_found h (find (λ r. key r == k) rows) in
      let rest = length-chosen_items h ks rows in
      let both = length-append found (chosen_items ks rows) in omega (arith, one, rest, both)
