-- ===== src/Vault/Cabinet.antt =====
-- frontend/src/pages/Vault/CabinetModal.tsx: saving a cabinet with the difference of its members.
-- The server is a parameter.
pub mod Served
pub mod Calls
pub mod Members
mod Tests
use iop.Base.{
  ℕ, ◌+◌, Bool, true, false, not, ◌||◌, List, [], ◌∷◌, ◌++◌, map, Option, none, some, Text, text,
  text_eq, ◌==◌, includes, filter, if◌then◌else◌,
}
use iop.Api.{ApiError, Response, resolved, rejected}
use iop.Types.Vault.{Cabinet, CabinetCreate, CabinetUpdate}

pub record FormValues : Type 0 where
  pub name : Text
  pub description : Option Text
  pub member_usernames : Option (List Text)

-- The calls of `cabinetsApi`.
pub data CabinetCall : Type 0 where
  update : Text → CabinetUpdate → CabinetCall
  add_members : Text → List Text → CabinetCall
  remove_member : Text → Text → CabinetCall
  create : CabinetCreate → CabinetCall

pub data CabinetNotice : Type 0 where
  saved : Text → CabinetNotice
  refused : Text → CabinetNotice

-- The state of the modal, with the calls of `onSaved` and `onClose`.
pub record CabinetState : Type 0 where
  pub loading : Bool
  pub notices : List CabinetNotice
  pub saves : ℕ
  pub closed : Bool

-- `isSuperAdmin || (cabinet?.created_by === currentUsername)`; no cabinet gives `undefined`, which
-- is not `null`.
abbrev pub created_by_user : Option Cabinet → Option Text → Bool
created_by_user none user = false
created_by_user (some c) none = false
created_by_user (some c) (some user) = c.created_by == user

unfoldable pub can_manage_members : Bool → Option Cabinet → Option Text → Bool
can_manage_members is_super_admin cabinet user = is_super_admin || created_by_user cabinet user

-- `values.member_usernames ?? []`
abbrev pub or_nobody : Option (List Text) → List Text
or_nobody none = []
or_nobody (some us) = us

-- `newMembers.filter((u) => !current.includes(u))`
unfoldable pub without : List Text → List Text → List Text
without us others = filter (λ u. not (includes others u)) us

abbrev pub add_call : Text → List Text → List CabinetCall
add_call id [] = []
add_call id (u ∷ us) = add_members id (u ∷ us) ∷ []

unfoldable pub member_calls : Text → List Text → List Text → List CabinetCall
unfolding without
member_calls id new_members current =
    add_call id (without new_members current)
    ++ map (λ u. remove_member id u) (without current new_members)

-- The calls of `handleOk`, in their order.
unfoldable pub save_calls : Bool → Option Cabinet → FormValues → List CabinetCall
unfolding member_calls
save_calls can_manage (some c) v =
    update c.id (record { name = v.name; description = v.description })
    ∷ (if can_manage
        then member_calls c.id (or_nobody v.member_usernames) c.member_usernames
        else [])
save_calls can_manage none v =
    create (record {
      name = v.name;
      description = v.description;
      member_usernames = if can_manage then or_nobody v.member_usernames else [];
    })
    ∷ []

abbrev pub saved_text : Option Cabinet → Text
saved_text none = text "Cabinet created"
saved_text (some c) = text "Cabinet updated"

-- `axiosErr.response?.data?.detail ?? 'Save failed'`
abbrev pub save_error : Option Text → Text
save_error none = text "Save failed"
save_error (some d) = d

-- `onSaved`, `onClose`, `catch` and `finally`.
unfoldable pub settle_save : Option Cabinet → Option ApiError → CabinetState → CabinetState
settle_save cabinet none s = record s {
  notices = saved (saved_text cabinet) ∷ s.notices;
  saves = s.saves + 1;
  closed = true;
  loading = false;
}
settle_save cabinet (some e) s = record s {
  notices = refused (save_error e.detail) ∷ s.notices;
  loading = false;
}

-- After a call: its answer, the state that it left, and what the rest of the chain gives.
abbrev pub after_call {ℓ} :
    {S : Type ℓ} → Response (Unit {0}) → S → Option ApiError × S → Option ApiError × S
after_call (resolved _) t rest = rest
after_call (rejected e) t rest = (some e, t)

-- The server: a state and the answer to each call.
module _ {S : Type 0} (serve : CabinetCall → S → Response (Unit {0}) × S) where
  -- Each call is awaited; the first that is rejected ends the chain.
  unfoldable pub await_calls : List CabinetCall → S → Option ApiError × S
  await_calls [] s = (none, s)
  await_calls (c ∷ cs) s = after_call (serve c s).0 (serve c s).1 (await_calls cs (serve c s).1)

  -- `handleOk` after the validation of the form.
  unfoldable pub handle_ok :
      Bool → Option Cabinet → FormValues → CabinetState → S → CabinetState × S
  unfolding save_calls await_calls settle_save
  handle_ok can_manage cabinet v m s =
      let answer = await_calls (save_calls can_manage cabinet v) s in
      (settle_save cabinet answer.0 (record m { loading = true }), answer.1)
