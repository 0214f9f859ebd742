-- ===== src/Users/Submitted.antt =====
-- The submissions of the forms of the users page, over every sequence of events.
use iop.Base.{
  ℕ, ◌+◌, ◌≡◌, refl, sym, ◌∙◌, Bool, true, false, List, [], ◌∷◌, ◌++◌, Option, none, some, nat_beq,
  arith, Bool-cases, inl, inr, if◌then◌else◌,
}
use iop.Api.{Response, resolved, rejected, ApiError}
use iop.Types.Record.{PaginatedResponse}
use iop.Types.User.{User, UserUpdate}
use iop.Users.{
  update_user, reset_user_password, unless_blank, ModalMode, closed, create, edit, reset_password,
  CreateFormValues, ResetPasswordFormValues, UserJob, creating, editing, resetting, toggling,
  deleting, UsersPage, fetch_users, settle_users, or_first, handle_users_table, refresh_users,
  open_create_user, open_edit_user, open_reset_password, cancel_modal, start_create_user,
  edit_selected, start_edit_user, reset_selected, start_reset_password, start_toggle_active,
  start_delete_user, succeed, is_submission, settle_job,
}

abbrev pub initial_users : UsersPage
initial_users = record {
  users = [];
  total = 0;
  current_page = 1;
  loading = false;
  modal_mode = closed;
  selected_user = none;
  submitting = false;
  edit_form = none;
  notices = [];
  calls = [];
  jobs = [];
}

-- One event of the page. The button that submits a form is disabled while one is submitted; the
-- requests may be answered in any order.
pub data Step (s : UsersPage) : UsersPage → Type 0 where
  listed : (a : Response (PaginatedResponse User)) → Step s (settle_users a s)
  paged : (current : Option ℕ) → Step s (handle_users_table current s)
  refreshed : Step s (refresh_users s)
  opened_create : Step s (open_create_user s)
  opened_edit : (u : User) → Step s (open_edit_user u s)
  opened_reset : (u : User) → Step s (open_reset_password u s)
  cancelled : Step s (cancel_modal s)
  sent_create :
      (v : CreateFormValues)
      → s.modal_mode ≡ create
      → s.submitting ≡ false
      → Step s (start_create_user v s)
  sent_edit :
      (v : UserUpdate) → s.modal_mode ≡ edit → s.submitting ≡ false → Step s (start_edit_user v s)
  sent_reset :
      (v : ResetPasswordFormValues)
      → s.modal_mode ≡ reset_password
      → s.submitting ≡ false
      → Step s (start_reset_password v s)
  toggled : (u : User) → Step s (start_toggle_active u s)
  deleted : (u : User) → Step s (start_delete_user u s)
  settled :
      (before after : List UserJob) (j : UserJob) (e : Option ApiError)
      → s.jobs ≡ before ++ j ∷ after
      → Step s (settle_job j e (record s { jobs = before ++ after }))

pub data Reach : UsersPage → Type 0 where
  start : Reach (fetch_users 1 initial_users)
  later : {s t : UsersPage} → Reach s → Step s t → Reach t

abbrev pub bit : Bool → ℕ
bit false = 0
bit true = 1

-- The submissions among the handlers that await an answer.
unfoldable pub submissions : List UserJob → ℕ
submissions [] = 0
submissions (j ∷ js) = bit (is_submission j) + submissions js

-- A form about a user has one.
abbrev pub HasUser : ModalMode → Option User → Type 0
HasUser edit none = ⊥
HasUser reset_password none = ⊥
HasUser m o = Unit

submissions-append :
    (xs ys : List UserJob) → submissions (xs ++ ys) ≡ submissions xs + submissions ys
unfolding submissions
submissions-append [] ys = omega arith
submissions-append (x ∷ xs) ys = omega (arith, submissions-append xs ys)

record Inv (s : UsersPage) : Type 0 where
  counted : submissions s.jobs ≡ bit s.submitting
  user : HasUser s.modal_mode s.selected_user

Inv-settle_users :
    (a : Response (PaginatedResponse User)) (s : UsersPage) → Inv s → Inv (settle_users a s)
unfolding settle_users
Inv-settle_users (resolved res) s h = record { counted = h.counted; user = h.user }
Inv-settle_users (rejected e) s h = record { counted = h.counted; user = h.user }

Inv-handle_users_table :
    (current : Option ℕ) (s : UsersPage) → Inv s → Inv (handle_users_table current s)
unfolding handle_users_table fetch_users
Inv-handle_users_table current s h = elim (Bool-cases (nat_beq s.current_page (or_first current))) [
  | inl e ↦ rw e (record { counted = h.counted; user = h.user })
  | inr e ↦ rw e (record { counted = h.counted; user = h.user })
]

-- A handler that starts to wait.
counted-awaiting :
    (jobs : List UserJob) (j : UserJob) (b : Bool)
    → submissions jobs ≡ bit b
    → submissions (jobs ++ j ∷ []) ≡ bit b + bit (is_submission j)
unfolding submissions
counted-awaiting jobs j b h = omega (arith, h, submissions-append jobs (j ∷ []))

Inv-edit_selected :
    (o : Option User) (v : UserUpdate) (s : UsersPage)
    → s.submitting ≡ false
    → Inv s
    → Inv (edit_selected o v s)
Inv-edit_selected none v s idle h = h
Inv-edit_selected (some u) v s idle h = record {
  counted = counted-awaiting s.jobs (editing s.current_page) false (h.counted ∙ rw idle refl);
  user = h.user;
}

Inv-reset_selected :
    (o : Option User) (v : ResetPasswordFormValues) (s : UsersPage)
    → s.submitting ≡ false
    → Inv s
    → Inv (reset_selected o v s)
Inv-reset_selected none v s idle h = h
Inv-reset_selected (some u) v s idle h = record {
  counted = counted-awaiting s.jobs (resetting u.username) false (h.counted ∙ rw idle refl);
  user = h.user;
}

-- What the end of a handler leaves.
abbrev Kept : UsersPage → UsersPage → Type 0
Kept s t =
    (t.jobs ≡ s.jobs)
    × (t.submitting ≡ s.submitting)
    × (HasUser s.modal_mode s.selected_user → HasUser t.modal_mode t.selected_user)

succeed-Kept : (j : UserJob) (s : UsersPage) → Kept s (succeed j s)
unfolding succeed fetch_users
succeed-Kept (creating sent page) s = (refl, refl, λ h. tt)
succeed-Kept (editing page) s = (refl, refl, λ h. tt)
succeed-Kept (resetting username) s = (refl, refl, λ h. tt)
succeed-Kept (toggling u page) s = (refl, refl, λ h. h)
succeed-Kept (deleting u page) s = (refl, refl, λ h. h)

one_less : (a b : Bool) (n m : ℕ) → n + (bit a + m) ≡ bit b → n + m ≡ bit (if a then false else b)
one_less true true n m h = omega (arith, h)
one_less true false n m h = absurd (omega (arith, h))
one_less false b n m h = omega (arith, h)

-- Of a handler that ends, one submission less is under way.
counted_less :
    (before after : List UserJob) (j : UserJob) (b : Bool)
    → submissions (before ++ j ∷ after) ≡ bit b
    → submissions (before ++ after) ≡ bit (if is_submission j then false else b)
unfolding submissions
counted_less before after j b h =
    submissions-append before after
    ∙ one_less (is_submission j) b (submissions before) (submissions after)
        (sym (submissions-append before (j ∷ after)) ∙ h)

Inv-settle_job :
    (before after : List UserJob) (j : UserJob) (e : Option ApiError) (s : UsersPage)
    → s.jobs ≡ before ++ j ∷ after
    → Inv s
    → Inv (settle_job j e (record s { jobs = before ++ after }))
unfolding settle_job
Inv-settle_job before after j none s eq h =
    let k = succeed-Kept j (record s { jobs = before ++ after }) in
    record {
      counted = rw (k.0, k.1) (counted_less before after j s.submitting (rw (sym eq) h.counted));
      user = k.2 h.user;
    }
Inv-settle_job before after j (some e) s eq h = record {
  counted = counted_less before after j s.submitting (rw (sym eq) h.counted);
  user = h.user;
}

Inv-Step : {s t : UsersPage} → Step s t → Inv s → Inv t
unfolding refresh_users fetch_users open_create_user open_edit_user open_reset_password cancel_modal
    start_create_user start_edit_user start_reset_password start_toggle_active start_delete_user
Inv-Step {s} (listed a) h = Inv-settle_users a s h
Inv-Step {s} (paged current) h = Inv-handle_users_table current s h
Inv-Step {s} refreshed h = record { counted = h.counted; user = h.user }
Inv-Step {s} opened_create h = record { counted = h.counted; user = tt }
Inv-Step {s} (opened_edit u) h = record { counted = h.counted; user = tt }
Inv-Step {s} (opened_reset u) h = record { counted = h.counted; user = tt }
Inv-Step {s} cancelled h = record { counted = h.counted; user = tt }
Inv-Step {s} (sent_create v m idle) h = record {
  counted = counted-awaiting s.jobs _ false (h.counted ∙ rw idle refl);
  user = h.user;
}
Inv-Step {s} (sent_edit v m idle) h = Inv-edit_selected s.selected_user v s idle h
Inv-Step {s} (sent_reset v m idle) h = Inv-reset_selected s.selected_user v s idle h
Inv-Step {s} (toggled u) h = record {
  counted =
      counted-awaiting s.jobs (toggling u s.current_page) s.submitting h.counted ∙ omega arith;
  user = h.user;
}
Inv-Step {s} (deleted u) h = record {
  counted =
      counted-awaiting s.jobs (deleting u s.current_page) s.submitting h.counted ∙ omega arith;
  user = h.user;
}
Inv-Step {s} (settled before after j e eq) h = Inv-settle_job before after j e s eq h

Reach-Inv : {s : UsersPage} → Reach s → Inv s
unfolding fetch_users submissions
Reach-Inv start = record { counted = refl; user = tt }
Reach-Inv (later r step) = Inv-Step step (Reach-Inv r)

-- What the form of a mode sends for the user it is about, whom it has.
abbrev pub Sends :
    ModalMode → Option User → UserUpdate → ResetPasswordFormValues → UsersPage → Type 0
Sends edit none v p s = ⊥
Sends edit (some u) v p s =
    (start_edit_user v s).calls
    ≡ s.calls ++ update_user u.id (record v { email = unless_blank v.email }) ∷ []
Sends reset_password none v p s = ⊥
Sends reset_password (some u) v p s =
    (start_reset_password p s).calls ≡ s.calls ++ reset_user_password u.id p.new_password ∷ []
Sends m o v p s = Unit

sent-Sends :
    (m : ModalMode) (o : Option User) (v : UserUpdate) (p : ResetPasswordFormValues) (s : UsersPage)
    → s.selected_user ≡ o
    → HasUser m o
    → Sends m o v p s
unfolding start_edit_user start_reset_password
sent-Sends closed o v p s e h = tt
sent-Sends create o v p s e h = tt
sent-Sends edit none v p s e h = h
sent-Sends edit (some u) v p s e h = rw e refl
sent-Sends reset_password none v p s e h = h
sent-Sends reset_password (some u) v p s e h = rw e refl

-- In every state that the page can reach, whatever is opened, cancelled and answered in any order:
-- one submission of a form is under way while the page is submitting, and none otherwise; and an
-- open form to edit a user or to reset a password is about a user, to whom its submission sends
-- exactly one request.
pub submissions-Reach :
    {s : UsersPage} (v : UserUpdate) (p : ResetPasswordFormValues)
    → Reach s
    → (submissions s.jobs ≡ bit s.submitting) × Sends s.modal_mode s.selected_user v p s
submissions-Reach {s} v p reached =
    let h = Reach-Inv reached in
    (h.counted, sent-Sends s.modal_mode s.selected_user v p s refl h.user)
