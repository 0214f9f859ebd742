-- ===== src/Users/Tests.antt =====
-- Tests and witnesses for the users page.
use iop.Base.{◌≡◌, refl, true, [], ◌∷◌, ◌++◌, none, some, text}
use iop.Types.Auth.{operator}
use iop.Types.User.{User, UserUpdate, approved}
use iop.Users.{
  closed, update_user, editing, UsersPage, ResetPasswordFormValues, fetch_users, open_edit_user,
  start_edit_user, open_create_user, settle_job,
}
use iop.Users.Submitted.{
  Reach, start, later, opened_edit, sent_edit, initial_users, submissions, bit, Sends,
  submissions-Reach,
}

abbrev ada : User
ada = record {
  id = text "7";
  username = text "ada";
  full_name = text "Ada";
  email = some (text "ada@example.org");
  role = operator;
  is_active = true;
  approval_status = approved;
  registration_note = none;
  rejection_reason = none;
  created_at = [];
  updated_at = [];
  created_by = [];
  last_login = none;
}

-- The email is deleted in the form.
abbrev without_email : UserUpdate
without_email = record { full_name = some (text "Ada L."); email = some []; role = some operator }

abbrev new_password : ResetPasswordFormValues
new_password = record { new_password = text "secret-12"; confirm_password = text "secret-12" }

abbrev opened_page : UsersPage
opened_page = open_edit_user ada (fetch_users 1 initial_users)

abbrev submitted_page : UsersPage
submitted_page = start_edit_user without_email opened_page

submitted_page-Reach : Reach submitted_page
unfolding open_edit_user fetch_users
submitted_page-Reach = later (later start (opened_edit ada)) (sent_edit without_email refl refl)

-- A deleted email is left out of the request.
keeps_email :
    submitted_page.calls
    ≡ (fetch_users 1 initial_users).calls
      ++ update_user
          (text "7")
          (record { full_name = some (text "Ada L."); email = none; role = some operator })
        ∷ []
unfolding open_edit_user start_edit_user fetch_users
keeps_email = refl

-- A form that was opened in the meantime is closed by the answer of the one before.
closes_next : (settle_job (editing 1) none (open_create_user submitted_page)).modal_mode ≡ closed
unfolding settle_job open_create_user
closes_next = refl

submissions-Reach_example :
    (submissions submitted_page.jobs ≡ bit submitted_page.submitting)
    × Sends submitted_page.modal_mode submitted_page.selected_user without_email new_password
        submitted_page
submissions-Reach_example =
    submissions-Reach {s = submitted_page} without_email new_password submitted_page-Reach
