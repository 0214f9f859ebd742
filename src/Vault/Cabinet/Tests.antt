-- ===== src/Vault/Cabinet/Tests.antt =====
-- Tests and witnesses for saving a cabinet.
use iop.Base.{
  ◌≡◌, refl, true, false, not, ◌&&◌, ◌||◌, [], ◌∷◌, none, some, Text, text, text_eq, ◌==◌, includes,
  if◌then◌else◌,
}
use iop.Api.{Response, resolved}
use iop.Types.Vault.{Cabinet}
use iop.Vault.Cabinet.{
  FormValues, CabinetCall, update, add_members, remove_member, create, CabinetState, handle_ok,
}
use iop.Vault.Cabinet.Served.{Contents, is_edit, contents_after, Keeps}

-- A server that keeps what it has of each cabinet under its id.
abbrev store_serve : CabinetCall → (Text → Contents) → Response (Unit {0}) × (Text → Contents)
store_serve (update id u) s =
    (resolved tt, λ x. if id == x then record (s x) { details = u } else s x)
store_serve (add_members id us) s = (
  resolved tt,
  λ x.
      if id == x then record (s x) { is_member = λ v. (s x).is_member v || includes us v } else s x,
)
store_serve (remove_member id u) s = (
  resolved tt,
  λ x. if id == x then record (s x) { is_member = λ v. (s x).is_member v && not (u == v) } else s x,
)
store_serve (create c) s = (resolved tt, s)

store_served :
    (c : CabinetCall)
    → is_edit c ≡ true
    → (s : Text → Contents) (x : Text)
    → ((store_serve c s).0 ≡ resolved tt) × ((store_serve c s).1 x ≡ contents_after x c (s x))
store_served (update id u) e s x = (refl, refl)
store_served (add_members id us) e s x = (refl, refl)
store_served (remove_member id u) e s x = (refl, refl)
store_served (create c) e s x = (refl, refl)

abbrev store_server : Keeps store_serve
store_server = record {
  contents = λ s x. s x;
  served = λ c e s x. rw (store_served c e s x).0 (store_served c e s x).1;
}

abbrev cabinet : Cabinet
cabinet = record {
  id = text "c";
  name = text "Linux";
  description = none;
  member_usernames = text "ann" ∷ text "bob" ∷ [];
  entry_count = 0;
  created_at = [];
  updated_at = [];
  created_by = text "ann";
  updated_by = text "ann";
}

abbrev cabinet_form : FormValues
cabinet_form = record {
  name = text "Unix";
  description = none;
  member_usernames = some (text "bob" ∷ text "eve" ∷ []);
}

abbrev cabinet_modal : CabinetState
cabinet_modal = record { loading = false; notices = []; saves = 0; closed = false }

-- The cabinet, and another one with the same members.
abbrev store : Text → Contents
store x = record {
  details = record { name = text "Linux"; description = none };
  is_member = λ v. includes (text "ann" ∷ text "bob" ∷ []) v;
}

ann_removed :
    ((handle_ok store_serve true (some cabinet) cabinet_form cabinet_modal store).1
        (text "c")).is_member
      (text "ann")
    ≡ false
unfolding handle_ok
ann_removed = refl
