-- ===== src/Vault/FolderActions.antt =====
-- The handlers of frontend/src/pages/Vault/FolderTree.tsx, with the selection and the drop of
-- frontend/src/pages/Vault/VaultPage.tsx.
pub mod Requests
mod Tests
use iop.Base.{
  ℕ, ◌+◌, Bool, true, false, List, [], ◌∷◌, ◌++◌, Option, none, some, Text, text, text_eq, ◌==◌,
  if◌then◌else◌,
}
use iop.Api.{ApiError, Response, resolved, rejected}
use iop.Text.Search.{is_empty}
use iop.Text.Trim.{trim}
use iop.Types.Vault.{Folder, FolderCreate, FolderUpdate}

pub data FolderSelection : Type 0 where
  all : FolderSelection
  folder : Text → FolderSelection

pub data FolderNotice : Type 0 where
  succeeded : Text → FolderNotice
  failed : Text → FolderNotice

pub record FolderPage : Type 0 where
  pub cabinet_id : Text
  pub folders : List Folder
  pub drag_over_id : Option Text
  pub adding_in : Option Text
  pub adding_name : Text
  pub editing_id : Option Text
  pub editing_name : Text
  pub folder_selection : FolderSelection
  pub dragging_entry_id : Option Text
  pub drop_version : ℕ
  pub notices : List FolderNotice

-- The calls of `foldersApi`, and `passwordsApi.move`.
pub data FolderRequest : Type 0 where
  list : Text → FolderRequest
  create : FolderCreate → FolderRequest
  update : Text → FolderUpdate → FolderRequest
  delete : Text → FolderRequest
  move : Text → Option Text → FolderRequest

-- The state that a handler leaves, and its requests.
abbrev pub Handled : Type 0
Handled = FolderPage × List FolderRequest

unfoldable pub settle_folders : Response (List Folder) → FolderPage → FolderPage
settle_folders (resolved folders) s = record s { folders = folders }
settle_folders (rejected e) s = record s {
  notices = failed (text "Failed to load folders") ∷ s.notices;
}

-- `err?.response?.data?.detail ?? fallback`
abbrev pub detail_or : Option Text → Text → Text
detail_or none fallback = fallback
detail_or (some d) fallback = d

-- `handleCreate` up to its request.
unfoldable pub start_create : Option Text → FolderPage → Handled
unfolding trim
start_create parent s =
    let name = trim s.adding_name in
    if is_empty name
    then (record s { adding_in = none }, [])
    else (s, create (record { cabinet_id = s.cabinet_id; parent_id = parent; name = name }) ∷ [])

unfoldable pub settle_create : Response (Unit {0}) → FolderPage → Handled
settle_create (resolved _) s = (
  record s {
    notices = succeeded (text "Folder created") ∷ s.notices;
    adding_in = none;
    adding_name = [];
  },
  list s.cabinet_id ∷ [],
)
settle_create (rejected e) s = (
  record s { notices = failed (detail_or e.detail (text "Failed to create folder")) ∷ s.notices },
  [],
)

-- `handleRename` up to its request.
unfoldable pub start_rename : Text → FolderPage → Handled
unfolding trim
start_rename id s =
    let name = trim s.editing_name in
    if is_empty name
    then (record s { editing_id = none }, [])
    else (s, update id (record { name = name }) ∷ [])

unfoldable pub settle_rename : Response (Unit {0}) → FolderPage → Handled
settle_rename (resolved _) s = (
  record s {
    notices = succeeded (text "Folder renamed") ∷ s.notices;
    editing_id = none;
    editing_name = [];
  },
  list s.cabinet_id ∷ [],
)
settle_rename (rejected e) s = (
  record s { notices = failed (detail_or e.detail (text "Failed to rename folder")) ∷ s.notices },
  [],
)

abbrev pub deselected : Text → FolderSelection → FolderSelection
deselected id all = all
deselected id (folder j) = if j == id then all else folder j

-- `handleDelete` after its request.
unfoldable pub settle_delete_folder : Text → Response (Unit {0}) → FolderPage → Handled
settle_delete_folder id (resolved _) s = (
  record s {
    notices = succeeded (text "Folder deleted") ∷ s.notices;
    folder_selection = deselected id s.folder_selection;
  },
  list s.cabinet_id ∷ [],
)
settle_delete_folder id (rejected e) s =
    (record s { notices = failed (text "Failed to delete folder") ∷ s.notices }, [])

-- `handleDragOver`: nothing is marked where no entry is dragged.
abbrev pub dragged_over : Option Text → Text → Option Text → Option Text
dragged_over none id old = old
dragged_over (some entry) id old = some id

unfoldable pub handle_drag_over : Text → FolderPage → FolderPage
handle_drag_over id s = record s {
  drag_over_id = dragged_over s.dragging_entry_id id s.drag_over_id;
}

abbrev pub dropped : Option Text → Option Text → List FolderRequest
dropped none target = []
dropped (some entry) target = move entry target ∷ []

-- `handleDrop` and `handleDropToFolder` up to its request, and after it.
unfoldable pub start_drop : Option Text → FolderPage → Handled
start_drop target s = (record s { drag_over_id = none }, dropped s.dragging_entry_id target)

unfoldable pub settle_drop : Response (Unit {0}) → FolderPage → FolderPage
settle_drop (resolved _) s = record s {
  drop_version = s.drop_version + 1;
  dragging_entry_id = none;
}
settle_drop (rejected e) s = record s {
  notices = failed (text "Failed to move entry") ∷ s.notices;
  dragging_entry_id = none;
}

-- `handleSelectCabinet`
unfoldable pub handle_select_cabinet : Text → FolderPage → Handled
handle_select_cabinet id s = (record s { cabinet_id = id; folder_selection = all }, list id ∷ [])

-- The buttons and fields of a folder.
unfoldable pub open_adding : Text → FolderPage → FolderPage
open_adding place s = record s { adding_in = some place; adding_name = [] }

unfoldable pub open_editing : Folder → FolderPage → FolderPage
open_editing f s = record s { editing_id = some f.id; editing_name = f.name }
