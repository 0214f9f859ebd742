-- ===== src/Scan/Import/Count.antt =====
-- The count beside the import button against the rows that the import takes.
use iop.Base.{
  All-intro, ◌+◌, ◌≡◌, refl, ap, sym, Bool, true, false, ◌&&◌, ◌||◌, List, [], ◌∷◌, map, arith,
  Text, if◌then◌else◌, filter, includes, text_eq, ◌==◌, length, All, Distinct, same_comm,
}
use iop.Scan.Page.{Page, ScanRow, is_matched, key_of}
use iop.Scan.Selection.{has_matched_row, importable_count}
use iop.Scan.Import.{to_import, is_imported}

-- Elements counted by either of two tests that never both hold.
length-filter-or :
    (f g : Text → Bool) (ks : List Text)
    → All (λ k. (f k && g k) ≡ false) ks
    → length (filter (λ k. f k || g k) ks) ≡ length (filter f ks) + length (filter g ks)
length-filter-or f g [] h = omega arith
length-filter-or f g (k ∷ ks) h = ground (arith, length-filter-or f g ks h.1, h.0)

-- A key is counted once in a list without repetitions, if it is there.
length-filter_key :
    (x : Text) (b : Bool) (ks : List Text)
    → Distinct ks
    → length (filter (λ k. x == k && b) ks) ≡ (if includes ks x && b then 1 else 0)
length-filter_key x b [] h = refl
length-filter_key x b (k ∷ ks) h =
    ground (arith, length-filter_key x b ks h.1, same_comm x k, absent x k ks)
  where
    absent : (x k : Text) (ks : List Text) → (x == k) ≡ true → includes ks k ≡ includes ks x
    absent x k ks e = ap (includes ks) (sym ((text_eq.same_iff x k).0 e))

length-filter_cong :
    (f g : Text → Bool) (ks : List Text)
    → ((k : Text) → f k ≡ g k)
    → length (filter f ks) ≡ length (filter g ks)
length-filter_cong f g [] h = refl
length-filter_cong f g (k ∷ ks) h = rw (h k) (ground (arith, length-filter_cong f g ks h))

has_matched_row_cons :
    (r : ScanRow) (rs : List ScanRow) (k : Text)
    → has_matched_row (r ∷ rs) k ≡ (r.key == k && is_matched r || has_matched_row rs k)
has_matched_row_cons r rs k = ground arith

has_matched_row_key :
    (rs : List ScanRow) (k : Text)
    → includes (map key_of rs) k ≡ false
    → has_matched_row rs k ≡ false
has_matched_row_key [] k h = refl
has_matched_row_key (r ∷ rs) k h = ground (arith, has_matched_row_key rs k)

apart :
    (r : ScanRow) (rs : List ScanRow)
    → includes (map key_of rs) r.key ≡ false
    → (k : Text) → ((r.key == k && is_matched r) && has_matched_row rs k) ≡ false
apart r rs h k = ground (arith, has_matched_row_key rs r.key h, carried)
  where
    carried : (r.key == k) ≡ true → has_matched_row rs r.key ≡ has_matched_row rs k
    carried e = ap (has_matched_row rs) ((text_eq.same_iff r.key k).0 e)

length-filter_rows :
    (rows : List ScanRow) (ks : List Text)
    → Distinct (map key_of rows)
    → Distinct ks
    → length (filter (has_matched_row rows) ks) ≡ length (filter (is_imported ks) rows)
length-filter_rows [] ks hr hk = none_counted ks
  where
    none_counted : (ks : List Text) → length (filter (has_matched_row []) ks) ≡ 0
    none_counted [] = refl
    none_counted (k ∷ ks) = none_counted ks
length-filter_rows (r ∷ rs) ks hr hk = ground (
  arith,
  length-filter_cong (has_matched_row (r ∷ rs))
      (λ (k : Text). r.key == k && is_matched r || has_matched_row rs k) ks
      (has_matched_row_cons r rs),
  length-filter-or (λ (k : Text). r.key == k && is_matched r) (has_matched_row rs) ks
      (All-intro (λ (k : Text). ((r.key == k && is_matched r) && has_matched_row rs k) ≡ false)
        (apart r rs hr.0) ks),
  length-filter_key r.key (is_matched r) ks hk,
  length-filter_rows rs ks hr.1 hk,
)

-- Where no address is listed twice and no key selected twice, the count beside the button is the
-- number of rows that the import takes.
pub importable_count_lem :
    (p : Page)
    → Distinct (map key_of p.rows)
    → Distinct p.selected_keys
    → importable_count p ≡ length (to_import p)
unfolding importable_count to_import
importable_count_lem p hr hk = length-filter_rows p.rows p.selected_keys hr hk
