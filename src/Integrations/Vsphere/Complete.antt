-- ===== src/Integrations/Vsphere/Complete.antt =====
-- The import of VMs is complete or refused.
use iop.Base.{
  ◌≡◌, ◌⊎◌, refl, ap, inl, inr, true, false, List, [], ◌∷◌, map, Option, none, some, Text, text_eq,
  filter, includes, if◌then◌else◌, sym, arith, Bool-cases, All, Member,
}
use iop.Text.Search.{is_empty}
use iop.Integrations.Vsphere.{
  VmRow, VmDrawer, is_unset, is_invalid, checked_vms, asserted, import_vm, refuse_or_send,
  start_vm_import,
}

-- A VM with its address and its subnet, as the checked row has them.
abbrev pub IsComplete : VmRow → Type 0
IsComplete r =
    ((import_vm r).vm_name ≡ r.vm.name)
    × (r.selected_ip ≡ some (import_vm r).ip_address)
    × (r.subnet_id ≡ some (import_vm r).subnet_id)
    × (is_empty (import_vm r).ip_address ≡ false)
    × (is_empty (import_vm r).subnet_id ≡ false)

set_value :
    (o : Option Text)
    → is_unset o ≡ false
    → (o ≡ some (asserted o)) × (is_empty (asserted o) ≡ false)
set_value none h = absurd (ground arith)
set_value (some t) h = (refl, h)

valid-IsComplete : (r : VmRow) → is_invalid r ≡ false → IsComplete r
valid-IsComplete r h =
    let ip = set_value r.selected_ip (ground arith) in
    let subnet = set_value r.subnet_id (ground arith) in (refl, ip.0, subnet.0, ip.1, subnet.1)

-- A checked VM that lacks its address or its subnet.
record Lacking (rs : List VmRow) : Type 0 where
  row : VmRow
  others : List VmRow
  first : filter is_invalid rs ≡ row ∷ others
  listed : Member row rs
  invalid : is_invalid row ≡ true

every_row_checked :
    (rs : List VmRow) → Lacking rs ⊎ ((filter is_invalid rs ≡ []) × All IsComplete rs)
every_row_checked [] = inr (refl, tt)
every_row_checked (r ∷ rs) = elim (Bool-cases (is_invalid r)) [
  | inl bad ↦ inl (record {
    row = r;
    others = filter is_invalid rs;
    first = rw bad refl;
    listed = inl refl;
    invalid = bad;
  })
  | inr good ↦ elim (every_row_checked rs) [
    | inl h ↦ inl (record {
      row = h.row;
      others = h.others;
      first = rw good h.first;
      listed = inr h.listed;
      invalid = h.invalid;
    })
    | inr h ↦ inr (rw good h.0, (valid-IsComplete r good, h.1))
  ]
]

-- The rows whose names are among the selected keys, in the order of the table.
abbrev pub chosen_vms : List Text → List VmRow → List VmRow
chosen_vms keys [] = []
chosen_vms keys (r ∷ rs) =
    if includes keys r.vm.name then r ∷ chosen_vms keys rs else chosen_vms keys rs

checked_vms-chosen_vms :
    (keys : List Text) (rs : List VmRow)
    → filter (λ r. includes keys r.vm.name) rs ≡ chosen_vms keys rs
checked_vms-chosen_vms keys [] = refl
checked_vms-chosen_vms keys (r ∷ rs) = elim (Bool-cases (includes keys r.vm.name)) [
  | inl e ↦ rw (e, checked_vms-chosen_vms keys rs) refl
  | inr e ↦ rw (e, checked_vms-chosen_vms keys rs) refl
]

-- Importing sends one request for the VMs whose names are among the selected keys and for no
-- others, in the order of the table, each under its name and with the address and the subnet that
-- its row has, none of them empty; or it sends nothing, since one of these VMs lacks its address or
-- its subnet.
pub start_vm_import-IsComplete :
    (s : VmDrawer)
    → let chosen = chosen_vms s.selected_keys s.vms in
      (((start_vm_import s).1 ≡ some (map import_vm chosen)) × All IsComplete chosen)
      ⊎ (((start_vm_import s).1 ≡ none) × ((r : VmRow) × (Member r chosen × (is_invalid r ≡ true))))
unfolding start_vm_import checked_vms
start_vm_import-IsComplete s =
    rw (sym (checked_vms-chosen_vms s.selected_keys s.vms))
      (elim (every_row_checked (checked_vms s)) [
        | inl h ↦ inr (
          ap (λ (bad : List VmRow). (refuse_or_send bad (checked_vms s) s).1) h.first,
          (h.row, (h.listed, h.invalid)),
        )
        | inr h ↦ inl (ap (λ (bad : List VmRow). (refuse_or_send bad (checked_vms s) s).1) h.0, h.1)
      ])
