-- ===== src/Integrations/Drawer.antt =====
-- The drawer that frontend/src/pages/Integrations/Device42ImportDrawer.tsx and
-- frontend/src/pages/Integrations/ZabbixImportDrawer.tsx write out, over their rows. The texts in
-- which they differ are parameters.
use iop.Base.{
  Bool, true, false, List, [], ◌∷◌, map, Option, none, some, Text, text, text_eq, ◌==◌,
  if◌then◌else◌,
}
use iop.Api.{Response, resolved, rejected}
use iop.Integrations.PaloAlto.{DrawerStep, connect, select, results, DrawerNotice, warned, failed}

pub record Drawer (Row Result : Type 0) : Type 0 where
  pub step : DrawerStep
  pub connect_loading : Bool
  pub import_loading : Bool
  pub rows : List Row
  pub selected_keys : List Text
  pub result : Option Result
  pub connect_error : Option Text
  pub notices : List DrawerNotice

abbrev pub detail_or_text : Option Text → Text → Text
detail_or_text none fallback = fallback
detail_or_text (some d) fallback = d

module _ {Row Result : Type 0} where
  abbrev pub closed_drawer : Drawer Row Result
  closed_drawer = record {
    step = connect;
    connect_loading = false;
    import_loading = false;
    rows = [];
    selected_keys = [];
    result = none;
    connect_error = none;
    notices = [];
  }

  -- `handleConnect` up to its request, and after it, with the rows of the answer.
  unfoldable pub begin_connect : Drawer Row Result → Drawer Row Result
  begin_connect s = record s { connect_loading = true; connect_error = none }

  unfoldable pub finish_connect : Text → Response (List Row) → Drawer Row Result → Drawer Row Result
  finish_connect fallback (resolved rows) s = record s {
    rows = rows;
    selected_keys = [];
    step = select;
    connect_loading = false;
  }
  finish_connect fallback (rejected e) s = record s {
    connect_error = some (detail_or_text e.detail fallback);
    connect_loading = false;
  }

  -- `handleImport` up to its request, for what it has chosen to import, and after it.
  unfoldable pub begin_import :
      {Item : Type 0}
      → Text
      → List Item
      → Drawer Row Result
      → Drawer Row Result × Option (List Item)
  begin_import warning [] s = (record s { notices = warned warning ∷ s.notices }, none)
  begin_import warning (i ∷ items) s = (record s { import_loading = true }, some (i ∷ items))

  unfoldable pub finish_import : Response Result → Drawer Row Result → Drawer Row Result
  finish_import (resolved r) s = record s {
    result = some r;
    step = results;
    import_loading = false;
  }
  finish_import (rejected e) s = record s {
    notices = failed (text "Import failed") ∷ s.notices;
    import_loading = false;
  }

  -- `handleClose`
  unfoldable pub reset_drawer : Drawer Row Result → Drawer Row Result
  reset_drawer s = record s {
    step = connect;
    rows = [];
    selected_keys = [];
    result = none;
    connect_error = none;
  }

-- `rows.map((r) => (r.ip_address === ip ? { ...r, [field]: value } : r))`
unfoldable pub edit_rows : {Row : Type 0} → (Row → Text) → (Row → Row) → Text → List Row → List Row
edit_rows key edit k rows = map (λ r. if key r == k then edit r else r) rows
