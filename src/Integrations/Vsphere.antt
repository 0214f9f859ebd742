-- ===== src/Integrations/Vsphere.antt =====
-- frontend/src/pages/Integrations/VSphereImportDrawer.tsx
pub mod Complete
use iop.Base.{
  ℕ, Bool, true, false, not, ◌||◌, List, [], ◌∷◌, ◌++◌, map, Option, none, some, Text, text,
  text_eq, ◌==◌, includes, filter, if◌then◌else◌,
}
use iop.Api.{ApiError, Response, resolved, rejected, error_text}
use iop.Text.Search.{is_empty}
use iop.Integrations.PaloAlto.{DrawerStep, connect, select, results, or_production}

pub record VsphereIpInfo : Type 0 where
  pub address : Text
  pub version : ℕ

pub record VsphereVm : Type 0 where
  pub name : Text
  pub guest_hostname : Option Text
  pub ip_addresses : List VsphereIpInfo
  pub os_type : Text
  pub power_state : Text
  pub datacenter : Option Text
  pub cluster : Option Text

pub record VsphereImportVm : Type 0 where
  pub vm_name : Text
  pub ip_address : Text
  pub subnet_id : Text
  pub hostname : Option Text
  pub os_type : Option Text
  pub environment : Option Text

pub record VsphereImportResult : Type 0 where
  pub created : ℕ
  pub skipped : ℕ
  pub errors : List Text

pub record VmRow : Type 0 where
  pub vm : VsphereVm
  pub selected_ip : Option Text
  pub subnet_id : Option Text
  pub environment : Option Text

-- `vm.ip_addresses[0]?.address ?? ''`
abbrev pub first_address : List VsphereIpInfo → Text
first_address [] = []
first_address (i ∷ is) = i.address

abbrev pub vm_row : VsphereVm → VmRow
vm_row vm = record {
  vm = vm;
  selected_ip = some (first_address vm.ip_addresses);
  subnet_id = none;
  environment = some (text "Production");
}

pub data VmNotice : Type 0 where
  failed : Text → VmNotice

pub record VmDrawer : Type 0 where
  pub step : DrawerStep
  pub connect_loading : Bool
  pub import_loading : Bool
  pub vms : List VmRow
  pub selected_keys : List Text
  pub result : Option VsphereImportResult
  pub connect_error : Option Text
  pub notices : List VmNotice

-- `handleConnect` up to its request, and after it.
unfoldable pub start_vsphere : VmDrawer → VmDrawer
start_vsphere s = record s { connect_loading = true; connect_error = none }

unfoldable pub settle_vsphere : Response (List VsphereVm) → VmDrawer → VmDrawer
settle_vsphere (resolved vms) s = record s {
  vms = map vm_row vms;
  selected_keys = [];
  step = select;
  connect_loading = false;
}
settle_vsphere (rejected e) s = record s {
  connect_error = some (error_text e (text "Connection failed"));
  connect_loading = false;
}

-- `!value`
abbrev pub is_unset : Option Text → Bool
is_unset none = true
is_unset (some t) = is_empty t

abbrev pub is_invalid : VmRow → Bool
is_invalid r = is_unset r.selected_ip || is_unset r.subnet_id

-- `vms.filter((vm) => selectedKeys.includes(vm.name))`
unfoldable pub checked_vms : VmDrawer → List VmRow
checked_vms s = filter (λ r. includes s.selected_keys r.vm.name) s.vms

-- `value!`: an undefined value would be sent as such, here as an empty text.
abbrev pub asserted : Option Text → Text
asserted none = []
asserted (some t) = t

-- `vm.guest_hostname ?? vm.name`
abbrev pub name_of : VsphereVm → Text
name_of vm = elim (vm.guest_hostname) [ some h ↦ h | none ↦ vm.name ]

abbrev pub import_vm : VmRow → VsphereImportVm
import_vm r = record {
  vm_name = r.vm.name;
  ip_address = asserted r.selected_ip;
  subnet_id = asserted r.subnet_id;
  hostname = some (name_of r.vm);
  os_type = some r.vm.os_type;
  environment = some (or_production r.environment);
}

-- `names.join(', ')`
abbrev pub join_names : List VmRow → Text
join_names [] = []
join_names (r ∷ []) = r.vm.name
join_names (r ∷ s ∷ rs) = r.vm.name ++ text ", " ++ join_names (s ∷ rs)

-- The test on the invalid VMs and the request for those checked.
abbrev pub refuse_or_send :
    List VmRow → List VmRow → VmDrawer → VmDrawer × Option (List VsphereImportVm)
refuse_or_send (r ∷ invalid) chosen s = (
  record s {
    notices =
        failed (
          text "Please select an IP and subnet for all checked VMs ("
          ++ join_names (r ∷ invalid)
          ++ text ")")
        ∷ s.notices;
  },
  none,
)
refuse_or_send [] chosen s = (record s { import_loading = true }, some (map import_vm chosen))

-- `handleImport` up to its request.
unfoldable pub start_vm_import : VmDrawer → VmDrawer × Option (List VsphereImportVm)
unfolding checked_vms
start_vm_import s = refuse_or_send (filter is_invalid (checked_vms s)) (checked_vms s) s

unfoldable pub settle_vm_import : Response VsphereImportResult → VmDrawer → VmDrawer
settle_vm_import (resolved r) s = record s {
  result = some r;
  step = results;
  import_loading = false;
}
settle_vm_import (rejected e) s = record s {
  notices = failed (error_text e (text "Import failed")) ∷ s.notices;
  import_loading = false;
}

-- `handleClose`
unfoldable pub close_vsphere : VmDrawer → VmDrawer
close_vsphere s = record s {
  step = connect;
  vms = [];
  selected_keys = [];
  result = none;
  connect_error = none;
}

-- The checkbox of a row.
unfoldable pub check_vm : Text → Bool → VmDrawer → VmDrawer
check_vm name true s = record s { selected_keys = s.selected_keys ++ name ∷ [] }
check_vm name false s = record s { selected_keys = filter (λ k. not (k == name)) s.selected_keys }

pub data VmField : Type 0 where
  ip_field subnet_field environment_field : VmField

abbrev pub set_vm_field : VmField → Text → VmRow → VmRow
set_vm_field ip_field value r = record r { selected_ip = some value }
set_vm_field subnet_field value r = record r { subnet_id = some value }
set_vm_field environment_field value r = record r { environment = some value }

-- `updateRow`
unfoldable pub update_vm : Text → VmField → Text → VmDrawer → VmDrawer
update_vm name field value s = record s {
  vms = map (λ r. if r.vm.name == name then set_vm_field field value r else r) s.vms;
}
