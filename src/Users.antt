-- ===== src/Users.antt =====
-- frontend/src/pages/Users/UsersPage.tsx over frontend/src/api/users.ts: the list of users and its
-- forms. `calls` lists the requests sent; `jobs` holds the handlers that await an answer, with what
-- they keep of the render that started them.
pub mod Submitted
mod Tests
use iop.Base.{
  ℕ, ◌≡◌, Bool, true, false, List, [], ◌∷◌, ◌++◌, Option, none, some, Text, text, nat_beq,
  if◌then◌else◌,
}
use iop.Api.{Response, resolved, rejected, ApiError, error_text}
use iop.Text.Search.{is_empty}
use iop.Types.Record.{PaginatedResponse}
use iop.Types.User.{User, UserCreate, UserUpdate}

abbrev pub users_page_size : ℕ
users_page_size = 20

pub data ModalMode : Type 0 where
  closed create edit reset_password : ModalMode

pub record CreateFormValues : Type 0 where
  pub payload : UserCreate
  pub open payload use *
  pub confirm_password : Text

pub record ResetPasswordFormValues : Type 0 where
  pub new_password : Text
  pub confirm_password : Text

-- The endpoints of `usersApi` that the page calls.
pub data UserCall : Type 0 where
  list_users : ℕ → ℕ → UserCall
  create_user : UserCreate → UserCall
  update_user : Text → UserUpdate → UserCall
  delete_user : Text → UserCall
  reset_user_password : Text → Text → UserCall
  activate deactivate : Text → UserCall

pub data UserJob : Type 0 where
  creating : UserCreate → ℕ → UserJob
  editing : ℕ → UserJob
  resetting : Text → UserJob
  toggling deleting : User → ℕ → UserJob

-- `message.success` and `message.error`, the text of the first in its parts.
pub data UserNotice : Type 0 where
  done : List Text → UserNotice
  failed : Text → UserNotice

pub record UsersPage : Type 0 where
  pub users : List User
  pub total : ℕ
  pub current_page : ℕ
  pub loading : Bool
  pub modal_mode : ModalMode
  pub selected_user : Option User
  pub submitting : Bool
  pub edit_form : Option UserUpdate
  pub notices : List UserNotice
  pub calls : List UserCall
  pub jobs : List UserJob

abbrev pub notify : UserNotice → UsersPage → UsersPage
notify n s = record s { notices = s.notices ++ n ∷ [] }

abbrev pub send_call : UserCall → UsersPage → UsersPage
send_call c s = record s { calls = s.calls ++ c ∷ [] }

-- `fetchUsers` up to its request, and after it.
unfoldable pub fetch_users : ℕ → UsersPage → UsersPage
fetch_users page s = send_call (list_users page users_page_size) (record s { loading = true })

unfoldable pub settle_users : Response (PaginatedResponse User) → UsersPage → UsersPage
settle_users (resolved res) s = record s { users = res.items; total = res.total; loading = false }
settle_users (rejected e) s =
    record (notify (failed (error_text e (text "Failed to load users"))) s) { loading = false }

abbrev pub or_first : Option ℕ → ℕ
or_first none = 1
or_first (some p) = p

-- `handleTableChange`, with the effect on the page.
unfoldable pub handle_users_table : Option ℕ → UsersPage → UsersPage
unfolding fetch_users
handle_users_table current s =
    let page = or_first current in
    let moved : UsersPage = record s { current_page = page } in
    if nat_beq s.current_page page then moved else fetch_users page moved

unfoldable pub refresh_users : UsersPage → UsersPage
unfolding fetch_users
refresh_users s = fetch_users s.current_page s

unfoldable pub open_create_user : UsersPage → UsersPage
open_create_user s = record s { selected_user = none; modal_mode = create }

unfoldable pub open_edit_user : User → UsersPage → UsersPage
open_edit_user u s = record s {
  selected_user = some u;
  edit_form = some (record { full_name = some u.full_name; email = u.email; role = some u.role });
  modal_mode = edit;
}

unfoldable pub open_reset_password : User → UsersPage → UsersPage
open_reset_password u s = record s { selected_user = some u; modal_mode = reset_password }

-- The form that `resetFields` clears is that of the mode.
abbrev pub cleared_form : ModalMode → Option UserUpdate → Option UserUpdate
cleared_form edit f = none
cleared_form m f = f

abbrev pub hide_modal : ModalMode → UsersPage → UsersPage
hide_modal m s = record s { modal_mode = closed; edit_form = cleared_form m s.edit_form }

unfoldable pub cancel_modal : UsersPage → UsersPage
cancel_modal s = hide_modal s.modal_mode s

-- `values.email || undefined`
abbrev pub unless_blank : Option Text → Option Text
unless_blank none = none
unless_blank (some e) = if is_empty e then none else some e

abbrev pub awaiting : UserJob → UsersPage → UsersPage
awaiting j s = record s { jobs = s.jobs ++ j ∷ [] }

-- `handleCreate`, `handleEdit` and `handleResetPassword` up to their requests.
unfoldable pub start_create_user : CreateFormValues → UsersPage → UsersPage
start_create_user values s =
    let sent : UserCreate = record {
      username = values.username;
      password = values.password;
      full_name = values.full_name;
      email = unless_blank values.email;
      role = values.role;
    } in
    awaiting (creating sent s.current_page)
      (send_call (create_user sent) (record s { submitting = true }))

abbrev pub edit_selected : Option User → UserUpdate → UsersPage → UsersPage
edit_selected none values s = s
edit_selected (some u) values s = awaiting (editing s.current_page) (
    send_call (update_user u.id (record values { email = unless_blank values.email }))
      (record s { submitting = true }))

unfoldable pub start_edit_user : UserUpdate → UsersPage → UsersPage
start_edit_user values s = edit_selected s.selected_user values s

abbrev pub reset_selected : Option User → ResetPasswordFormValues → UsersPage → UsersPage
reset_selected none values s = s
reset_selected (some u) values s =
    awaiting (resetting u.username)
      (send_call (reset_user_password u.id values.new_password) (record s { submitting = true }))

unfoldable pub start_reset_password : ResetPasswordFormValues → UsersPage → UsersPage
start_reset_password values s = reset_selected s.selected_user values s

-- `handleToggleActive` and `handleDelete` up to their requests.
unfoldable pub start_toggle_active : User → UsersPage → UsersPage
start_toggle_active u s =
    awaiting (toggling u s.current_page)
      (send_call (if u.is_active then deactivate u.id else activate u.id) s)

unfoldable pub start_delete_user : User → UsersPage → UsersPage
start_delete_user u s = awaiting (deleting u s.current_page) (send_call (delete_user u.id) s)

-- What follows the answer of a request: the rest of `try`.
unfoldable pub succeed : UserJob → UsersPage → UsersPage
unfolding fetch_users
succeed (creating sent page) s =
    fetch_users page (
      hide_modal create (notify (done (text "User \"" ∷ sent.username ∷ text "\" created" ∷ [])) s))
succeed (editing page) s =
    fetch_users page (hide_modal edit (notify (done (text "User updated" ∷ [])) s))
succeed (resetting username) s =
    hide_modal reset_password
      (notify (done (text "Password reset for \"" ∷ username ∷ text "\"" ∷ [])) s)
succeed (toggling u page) s =
    let word = if u.is_active then text "\" deactivated" else text "\" activated" in
    fetch_users page (notify (done (text "User \"" ∷ u.username ∷ word ∷ [])) s)
succeed (deleting u page) s =
    fetch_users page
      (notify (done (text "User \"" ∷ u.username ∷ text "\" permanently deleted" ∷ [])) s)

abbrev pub failure_text : UserJob → Text
failure_text (creating sent page) = text "Failed to create user"
failure_text (editing page) = text "Failed to update user"
failure_text (resetting username) = text "Failed to reset password"
failure_text (toggling u page) = text "Operation failed"
failure_text (deleting u page) = text "Delete failed"

abbrev pub is_submission : UserJob → Bool
is_submission (toggling u page) = false
is_submission (deleting u page) = false
is_submission j = true

-- `finally`, which only the handlers of the forms have.
abbrev pub finish : UserJob → UsersPage → UsersPage
finish j s = record s { submitting = if is_submission j then false else s.submitting }

unfoldable pub settle_job : UserJob → Option ApiError → UsersPage → UsersPage
unfolding succeed
settle_job j none s = finish j (succeed j s)
settle_job j (some e) s = finish j (notify (failed (error_text e (failure_text j))) s)
