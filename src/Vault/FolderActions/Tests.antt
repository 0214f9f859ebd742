-- ===== src/Vault/FolderActions/Tests.antt =====
-- Tests and witnesses for the handlers of the folders.
use iop.Base.{◌≡◌, refl, List, [], ◌∷◌, none, text}
use iop.Text.Trim.{trim}
use iop.Api.{resolved}
use iop.Vault.FolderActions.{FolderPage, FolderRequest, create, list, folder, settle_delete_folder}
use iop.Vault.FolderActions.Requests.{
  FolderEvent, adding_opened, adding_typed, create_submitted, create_answered, run_folders,
}

abbrev page : FolderPage
page = record {
  cabinet_id = text "c";
  folders = [];
  drag_over_id = none;
  adding_in = none;
  adding_name = [];
  editing_id = none;
  editing_name = [];
  folder_selection = folder (text "sub");
  dragging_entry_id = none;
  drop_version = 0;
  notices = [];
}

abbrev enter_then_blur : List FolderEvent
enter_then_blur =
    adding_opened (text "__root__")
    ∷ adding_typed (text " Linux ")
    ∷ create_submitted none
    ∷ create_submitted none
    ∷ create_answered (resolved tt)
    ∷ []

abbrev create_linux : FolderRequest
create_linux = create (record { cabinet_id = text "c"; parent_id = none; name = text "Linux" })

-- A blur while the request of the enter key is on its way sends the folder a second time.
sent_twice :
    (run_folders enter_then_blur page).1 ≡ create_linux ∷ create_linux ∷ list (text "c") ∷ []
unfolding run_folders trim
sent_twice = refl

-- Deleting a folder leaves the selection of a folder below it.
still_selected :
    (settle_delete_folder (text "top") (resolved tt) page).0.folder_selection ≡ folder (text "sub")
unfolding settle_delete_folder
still_selected = refl
