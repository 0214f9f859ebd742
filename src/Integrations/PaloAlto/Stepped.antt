-- ===== src/Integrations/PaloAlto/Stepped.antt =====
-- The drawer of frontend/src/pages/Integrations/PaloAltoImportDrawer.tsx over any sequence of its
-- handlers, and what it imports.
use iop.Base.{
  ◌≡◌, refl, sym, ap, ap₂, ◌∙◌, inl, inr, Bool, true, false, not, text, List, [], ◌∷◌, ◌++◌, map,
  Option, none, some, Text, text_eq, ◌==◌, includes, Distinct, filter, find, if◌then◌else◌, arith,
  Bool-cases, All, All-kept, All-mono, Member, eq_self, apply_same,
}
use mathlib.Core.Path.{subst}
use iop.Text.Search.{is_empty}
use iop.Api.{Response, resolved, rejected}
use iop.Types.PaloAlto.{PaloAltoDiscoverResult, PaloAltoImportAddress, PaloAltoImportResult}
use iop.Integrations.PaloAlto.{
  SelectionRow, ImportDrawer, connect, RowField, subnet_field, environment_field, set_field,
  update_rows, update_drawer_row, item_of, found_item, to_import, start_connect, settle_connect,
  warn_or_send, import_of, or_production, or_imported, start_import, settle_import, close_drawer,
  select_keys, go_back,
}
use iop.Integrations.PaloAlto.Rows.{key_of, build_rows_lem}

-- The handlers of the drawer, with the answers of the server.
pub data DrawerEvent : Type 0 where
  connect_clicked import_clicked back_clicked closed : DrawerEvent
  connect_answered : Response PaloAltoDiscoverResult → DrawerEvent
  import_answered : Response PaloAltoImportResult → DrawerEvent
  row_edited : Text → RowField → Text → DrawerEvent
  keys_selected : List Text → DrawerEvent

unfoldable pub on_drawer : DrawerEvent → ImportDrawer → ImportDrawer
unfolding start_connect settle_connect start_import settle_import close_drawer update_drawer_row
    select_keys go_back
on_drawer connect_clicked s = start_connect s
on_drawer import_clicked s = (start_import s).0
on_drawer back_clicked s = go_back s
on_drawer closed s = close_drawer s
on_drawer (connect_answered a) s = settle_connect a s
on_drawer (import_answered a) s = settle_import a s
on_drawer (row_edited key field value) s = update_drawer_row key field value s
on_drawer (keys_selected keys) s = select_keys keys s

unfoldable pub run_drawer : List DrawerEvent → ImportDrawer → ImportDrawer
unfolding on_drawer
run_drawer [] s = s
run_drawer (e ∷ es) s = run_drawer es (on_drawer e s)

abbrev pub initial_drawer : ImportDrawer
initial_drawer = record {
  step = connect;
  connect_loading = false;
  import_loading = false;
  discovery_result = none;
  rows = [];
  selected_keys = [];
  result = none;
  connect_error = none;
  notices = [];
}

-- The keys of the rows differ.
abbrev IsDrawer : ImportDrawer → Type 0
IsDrawer s = Distinct (map key_of s.rows)

key-set_field :
    (field : RowField) (value : Text) (r : SelectionRow) → (set_field field value r).key ≡ r.key
key-set_field subnet_field value r = refl
key-set_field environment_field value r = refl

keys-update_rows :
    (key : Text) (field : RowField) (value : Text) (rs : List SelectionRow)
    → map key_of (update_rows key field value rs) ≡ map key_of rs
unfolding update_rows
keys-update_rows key field value [] = refl
keys-update_rows key field value (r ∷ rs) =
    ap₂ (λ (k : Text) (ks : List Text). k ∷ ks) (edited (r.key == key))
      (keys-update_rows key field value rs)
  where
    edited : (b : Bool) → (if b then set_field field value r else r).key ≡ r.key
    edited true = key-set_field field value r
    edited false = refl

IsDrawer-warn_or_send :
    (items : List PaloAltoImportAddress) (s : ImportDrawer)
    → IsDrawer s
    → IsDrawer (warn_or_send items s).0
IsDrawer-warn_or_send [] s h = h
IsDrawer-warn_or_send (i ∷ items) s h = h

IsDrawer-on_drawer : (e : DrawerEvent) (s : ImportDrawer) → IsDrawer s → IsDrawer (on_drawer e s)
unfolding on_drawer start_connect settle_connect start_import settle_import close_drawer
    update_drawer_row select_keys go_back
IsDrawer-on_drawer connect_clicked s h = h
IsDrawer-on_drawer import_clicked s h = IsDrawer-warn_or_send (to_import s.selected_keys s.rows) s h
IsDrawer-on_drawer back_clicked s h = h
IsDrawer-on_drawer closed s h = tt
IsDrawer-on_drawer (connect_answered (resolved res)) s h = (build_rows_lem res).1
IsDrawer-on_drawer (connect_answered (rejected e)) s h = h
IsDrawer-on_drawer (import_answered (resolved r)) s h = h
IsDrawer-on_drawer (import_answered (rejected e)) s h = h
IsDrawer-on_drawer (row_edited key field value) s h =
    subst Distinct (sym (keys-update_rows key field value s.rows)) h
IsDrawer-on_drawer (keys_selected keys) s h = h

IsDrawer-run_drawer :
    (es : List DrawerEvent) (s : ImportDrawer) → IsDrawer s → IsDrawer (run_drawer es s)
unfolding run_drawer
IsDrawer-run_drawer [] s h = h
IsDrawer-run_drawer (e ∷ es) s h = IsDrawer-run_drawer es (on_drawer e s) (IsDrawer-on_drawer e s h)

-- The key of a row is listed.
includes-Member :
    (rs : List SelectionRow) (r : SelectionRow)
    → Member r rs
    → includes (map key_of rs) r.key ≡ true
includes-Member [] r m = absurd m
includes-Member (s ∷ rs) r (inl e) = rw e (ground (arith, eq_self s.key))
includes-Member (s ∷ rs) r (inr m) = ground (arith, includes-Member rs r m)

-- Where keys differ, the row of a key is found.
find-Member :
    (rs : List SelectionRow) (r : SelectionRow)
    → Distinct (map key_of rs)
    → Member r rs
    → find (λ s. s.key == r.key) rs ≡ some r
find-Member [] r d m = absurd m
find-Member (s ∷ rs) r d (inl e) = rw e (ground (arith, eq_self s.key))
find-Member (s ∷ rs) r d (inr m) = elim (Bool-cases (s.key == r.key)) [
  | inl same ↦ absurd (
      ground (
        arith,
        includes-Member rs r m,
        apply_same (λ k. includes (map key_of rs) k) s.key r.key same,
        d.0,
      ))
  | inr other ↦ rw other (find-Member rs r d.1 m)
]

-- What is imported of the rows that are listed.
abbrev pub items_of : List SelectionRow → List PaloAltoImportAddress
items_of [] = []
items_of (r ∷ rs) = item_of r ++ items_of rs

to_import-items_of :
    (chosen rows : List SelectionRow)
    → Distinct (map key_of rows)
    → All (λ r. Member r rows) chosen
    → to_import (map key_of chosen) rows ≡ items_of chosen
unfolding to_import
to_import-items_of [] rows d h = refl
to_import-items_of (r ∷ chosen) rows d h =
    ap₂ (λ (x y : List PaloAltoImportAddress). x ++ y) (ap found_item (find-Member rows r d h.0))
      (to_import-items_of chosen rows d h.1)

All-Member_self : (rs : List SelectionRow) → All (λ r. Member r rs) rs
All-Member_self [] = tt
All-Member_self (r ∷ rs) = (
  inl refl,
  All-mono (λ s. Member s rs) (λ s. Member s (r ∷ rs)) (λ s m. inr m) rs (All-Member_self rs),
)

-- A subnet is set, and which.
abbrev pub is_set : Option Text → Bool
is_set none = false
is_set (some id) = not (is_empty id)

abbrev pub id_of : Option Text → Text
id_of none = []
id_of (some id) = id

abbrev pub has_subnet : SelectionRow → Bool
has_subnet r = is_set r.subnet_id

-- The item of a row.
abbrev pub sent_item : SelectionRow → PaloAltoImportAddress
sent_item r = record {
  ip_address = r.ip_address;
  subnet_id = id_of r.subnet_id;
  hostname = some r.name;
  os_type = some (text "Unknown");
  environment = some (or_production r.environment);
  description = or_imported r.description r.source;
}

import_of-is_set :
    (o : Option Text) (r : SelectionRow)
    → r.subnet_id ≡ o
    → import_of o r ≡ (if is_set o then sent_item r ∷ [] else [])
import_of-is_set none r e = refl
import_of-is_set (some id) r e = elim (Bool-cases (is_empty id)) [
  | inl empty ↦ rw empty refl
  | inr full ↦ rw (full, e) refl
]

items_of-has_subnet : (rs : List SelectionRow) → items_of rs ≡ map sent_item (filter has_subnet rs)
items_of-has_subnet [] = refl
items_of-has_subnet (r ∷ rs) = elim (Bool-cases (has_subnet r)) [
  | inl e ↦ rw (import_of-is_set r.subnet_id r refl, e, items_of-has_subnet rs) refl
  | inr e ↦ rw (import_of-is_set r.subnet_id r refl, e, items_of-has_subnet rs) refl
]

abbrev pub sent_or_none : List PaloAltoImportAddress → Option (List PaloAltoImportAddress)
sent_or_none [] = none
sent_or_none (i ∷ items) = some (i ∷ items)

warn_or_send-sent :
    (items : List PaloAltoImportAddress) (s : ImportDrawer)
    → (warn_or_send items s).1 ≡ sent_or_none items
warn_or_send-sent [] s = refl
warn_or_send-sent (i ∷ items) s = refl

-- Whatever was discovered, edited and selected before: when any rows of the drawer are selected, it
-- sends those of them that have a subnet, which is not empty, each once and in their order with its
-- own address, name, subnet and environment, and it sends nothing where none has one.
pub start_import-chosen :
    (es : List DrawerEvent) (chosen : SelectionRow → Bool)
    → let s = run_drawer es initial_drawer in
      let rows = filter chosen s.rows in
      (start_import (select_keys (map key_of rows) s)).1
      ≡ sent_or_none (map sent_item (filter has_subnet rows))
unfolding start_import select_keys
start_import-chosen es chosen =
    let s = run_drawer es initial_drawer in
    let rows = filter chosen s.rows in
    let selected = select_keys (map key_of rows) s in
    warn_or_send-sent (to_import (map key_of rows) s.rows) selected
    ∙ ap sent_or_none (
        to_import-items_of rows s.rows (IsDrawer-run_drawer es initial_drawer tt)
          (All-kept (λ r. Member r s.rows) chosen s.rows (All-Member_self s.rows))
        ∙ items_of-has_subnet rows)
