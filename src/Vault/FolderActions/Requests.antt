-- ===== src/Vault/FolderActions/Requests.antt =====
-- What the folder tree sends over any sequence of its handlers.
use iop.Base.{
  ◌≡◌, inl, inr, false, List, [], ◌∷◌, ◌++◌, Option, none, some, Text, Bool-cases, All, All-append,
}
use iop.Api.{Response, resolved, rejected}
use iop.Text.Search.{is_empty}
use iop.Text.Trim.{trim, trim-trim}
use iop.Types.Vault.{Folder}
use iop.Vault.FolderActions.{
  FolderSelection, FolderPage, FolderRequest, list, create, update, delete, move, Handled,
  settle_folders, start_create, settle_create, start_rename, settle_rename, settle_delete_folder,
  handle_drag_over, dropped, start_drop, settle_drop, handle_select_cabinet, open_adding,
  open_editing,
}

pub data FolderEvent : Type 0 where
  folders_answered : Response (List Folder) → FolderEvent
  adding_opened adding_typed : Text → FolderEvent
  create_submitted : Option Text → FolderEvent
  create_answered : Response (Unit {0}) → FolderEvent
  editing_opened : Folder → FolderEvent
  editing_typed : Text → FolderEvent
  rename_submitted : Text → FolderEvent
  rename_answered : Response (Unit {0}) → FolderEvent
  delete_confirmed : Text → FolderEvent
  delete_answered : Text → Response (Unit {0}) → FolderEvent
  folder_selected : FolderSelection → FolderEvent
  cabinet_selected : Text → FolderEvent
  dragged : Option Text → FolderEvent
  dragged_over_folder : Text → FolderEvent
  dropped_on : Option Text → FolderEvent
  drop_answered : Response (Unit {0}) → FolderEvent

unfoldable pub on_folder : FolderEvent → FolderPage → Handled
unfolding settle_folders start_create settle_create start_rename settle_rename settle_delete_folder
    handle_drag_over start_drop settle_drop handle_select_cabinet open_adding open_editing
on_folder (folders_answered a) s = (settle_folders a s, [])
on_folder (adding_opened place) s = (open_adding place s, [])
on_folder (adding_typed name) s = (record s { adding_name = name }, [])
on_folder (create_submitted parent) s = start_create parent s
on_folder (create_answered a) s = settle_create a s
on_folder (editing_opened f) s = (open_editing f s, [])
on_folder (editing_typed name) s = (record s { editing_name = name }, [])
on_folder (rename_submitted id) s = start_rename id s
on_folder (rename_answered a) s = settle_rename a s
on_folder (delete_confirmed id) s = (s, delete id ∷ [])
on_folder (delete_answered id a) s = settle_delete_folder id a s
on_folder (folder_selected f) s = (record s { folder_selection = f }, [])
on_folder (cabinet_selected id) s = handle_select_cabinet id s
on_folder (dragged entry) s = (record s { dragging_entry_id = entry }, [])
on_folder (dragged_over_folder id) s = (handle_drag_over id s, [])
on_folder (dropped_on target) s = start_drop target s
on_folder (drop_answered a) s = (settle_drop a s, [])

-- The requests of a run, in their order.
unfoldable pub run_folders : List FolderEvent → FolderPage → Handled
unfolding on_folder
run_folders [] s = (s, [])
run_folders (e ∷ es) s =
    let now = on_folder e s in let rest = run_folders es now.0 in (rest.0, now.1 ++ rest.1)

-- A name that is not empty, and has no white space around it.
abbrev IsName : Text → Type 0
IsName name = (is_empty name ≡ false) × (trim name ≡ name)

abbrev pub IsProper : FolderRequest → Type 0
IsProper (create c) = IsName c.name
IsProper (update id u) = IsName u.name
IsProper (list id) = Unit
IsProper (delete id) = Unit
IsProper (move entry target) = Unit

IsProper-dropped : (entry target : Option Text) → All IsProper (dropped entry target)
IsProper-dropped none target = tt
IsProper-dropped (some e) target = (tt, tt)

IsProper-on_folder : (e : FolderEvent) (s : FolderPage) → All IsProper (on_folder e s).1
unfolding on_folder start_create settle_create start_rename settle_rename settle_delete_folder
    start_drop handle_select_cabinet
IsProper-on_folder (folders_answered a) s = tt
IsProper-on_folder (adding_opened place) s = tt
IsProper-on_folder (adding_typed name) s = tt
IsProper-on_folder (create_submitted parent) s = elim (Bool-cases (is_empty (trim s.adding_name))) [
  | inl blank ↦ rw blank tt
  | inr filled ↦ rw filled ((filled, trim-trim s.adding_name), tt)
]
IsProper-on_folder (create_answered (resolved _)) s = (tt, tt)
IsProper-on_folder (create_answered (rejected e)) s = tt
IsProper-on_folder (editing_opened f) s = tt
IsProper-on_folder (editing_typed name) s = tt
IsProper-on_folder (rename_submitted id) s = elim (Bool-cases (is_empty (trim s.editing_name))) [
  | inl blank ↦ rw blank tt
  | inr filled ↦ rw filled ((filled, trim-trim s.editing_name), tt)
]
IsProper-on_folder (rename_answered (resolved _)) s = (tt, tt)
IsProper-on_folder (rename_answered (rejected e)) s = tt
IsProper-on_folder (delete_confirmed id) s = (tt, tt)
IsProper-on_folder (delete_answered id (resolved _)) s = (tt, tt)
IsProper-on_folder (delete_answered id (rejected e)) s = tt
IsProper-on_folder (folder_selected f) s = tt
IsProper-on_folder (cabinet_selected id) s = (tt, tt)
IsProper-on_folder (dragged entry) s = tt
IsProper-on_folder (dragged_over_folder id) s = tt
IsProper-on_folder (dropped_on target) s = IsProper-dropped s.dragging_entry_id target
IsProper-on_folder (drop_answered a) s = tt

-- Over any sequence of its handlers, whatever the server answers, each folder that the tree creates
-- or renames gets a name that is not empty and has no white space around it.
pub run_folders-IsProper :
    (es : List FolderEvent) (s : FolderPage) → All IsProper (run_folders es s).1
unfolding run_folders
run_folders-IsProper [] s = tt
run_folders-IsProper (e ∷ es) s =
    All-append IsProper (on_folder e s).1 (run_folders es (on_folder e s).0).1
      (IsProper-on_folder e s) (run_folders-IsProper es (on_folder e s).0)
