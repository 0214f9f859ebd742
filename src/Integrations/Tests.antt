-- ===== src/Integrations/Tests.antt =====
-- Tests and witnesses for the import drawers.
use iop.Base.{
  Option, All, Member, length, ◌≤◌, ◌⊎◌, ◌≡◌, refl, Bool, true, false, List, [], ◌∷◌, map, none,
  some, Text, text, text_eq, ◌==◌, dedup, if◌then◌else◌, Distinct, filter,
}
use iop.Text.Split.{split}
use iop.Api.{resolved}
use iop.Types.PaloAlto.{PaloAltoDiscoverResult}
use iop.Integrations.PaloAlto.{
  SelectionRow, select, build_rows, extract_ip_from_netmask, subnet_field, start_import,
  select_keys,
}
use iop.Integrations.Chosen.{chosen_items}
use iop.Integrations.Assigned.{AssignedRow, Device42Ip, device42_to_import, zabbix_to_import}
use iop.Integrations.Assigned.Sent.{IsAssigned, to_import-IsAssigned}
use iop.Integrations.Vsphere.{
  VsphereVm, VmRow, VmDrawer, vm_row, import_vm, is_invalid, checked_vms, start_vm_import,
}
use iop.Integrations.Vsphere.Complete.{IsComplete, chosen_vms, start_vm_import-IsComplete}
use iop.Integrations.PaloAlto.Rows.{ip_of, key_of, named, discovered_ips, build_rows_lem}
use iop.Integrations.PaloAlto.Stepped.{
  DrawerEvent, connect_clicked, connect_answered, row_edited, run_drawer, initial_drawer, items_of,
  sent_item, has_subnet, sent_or_none, start_import-chosen,
}

abbrev discovered : PaloAltoDiscoverResult
discovered = record {
  addresses =
      record {
        name = text "web";
        ip_netmask = some (text "10.0.0.1/32");
        ip_range = none;
        description = none;
        tags = [];
        address_type = text "ip-netmask";
      }
      ∷ record {
        name = text "fqdn";
        ip_netmask = none;
        ip_range = none;
        description = none;
        tags = [];
        address_type = text "fqdn";
      }
      ∷ [];
  interfaces =
      record {
        name = text "e1";
        ip_address = some (text "10.0.0.2");
        zone = none;
        state = text "up";
      }
      ∷ [];
  arp_entries =
      record {
        ip = text "10.0.0.1";
        mac = text "aa";
        interface = text "e1";
        status = text "c";
        ttl = text "9";
      }
      ∷ record {
        ip = text "10.0.0.3";
        mac = [];
        interface = text "e1";
        status = text "c";
        ttl = text "9";
      }
      ∷ [];
}

three_rows :
    map key_of (build_rows discovered)
    ≡ text "addr-10.0.0.1" ∷ text "iface-10.0.0.2" ∷ text "arp-10.0.0.3" ∷ []
unfolding build_rows split extract_ip_from_netmask
three_rows = refl

build_rows_lem_example :
    (map ip_of (build_rows discovered) ≡ dedup (named (discovered_ips discovered)))
    × Distinct (map key_of (build_rows discovered))
build_rows_lem_example = build_rows_lem discovered

abbrev drawer_events : List DrawerEvent
drawer_events =
    connect_clicked
    ∷ connect_answered (resolved discovered)
    ∷ row_edited (text "arp-10.0.0.3") subnet_field (text "s")
    ∷ []

abbrev not_web : SelectionRow → Bool
not_web r = if r.name == text "web" then false else true

start_import-chosen_example :
    let s = run_drawer drawer_events initial_drawer in
    let rows = filter not_web s.rows in
    (start_import (select_keys (map key_of rows) s)).1
    ≡ sent_or_none (map sent_item (filter has_subnet rows))
start_import-chosen_example = start_import-chosen drawer_events not_web

one_sent :
    map
      (λ i. i.ip_address)
      (items_of (filter not_web (run_drawer drawer_events initial_drawer).rows))
    ≡ text "10.0.0.3" ∷ []
unfolding run_drawer build_rows split extract_ip_from_netmask
one_sent = refl

abbrev host_row : Text → Option Text → AssignedRow Device42Ip
host_row ip subnet = record {
  host = record {
    ip_address = ip;
    hostname = none;
    device_name = none;
    os_type = text "Linux";
    subnet = none;
    mac_address = none;
    label = none;
    available = false;
  };
  subnet_id = subnet;
  environment = none;
}

abbrev host_rows : List (AssignedRow Device42Ip)
host_rows = host_row (text "a") (some (text "s")) ∷ host_row (text "b") none ∷ []

abbrev both_hosts : List Text
both_hosts = text "a" ∷ text "b" ∷ []

one_assigned : map (λ i. i.ip_address) (device42_to_import both_hosts host_rows) ≡ text "a" ∷ []
unfolding device42_to_import chosen_items
one_assigned = refl

to_import-IsAssigned_example :
    All
      (λ i. IsAssigned both_hosts i.ip_address i.subnet_id)
      (device42_to_import both_hosts host_rows)
    × (length (device42_to_import both_hosts host_rows) ≤ length both_hosts)
    × All (λ i. IsAssigned both_hosts i.ip_address i.subnet_id) (zabbix_to_import both_hosts [])
    × (length (zabbix_to_import both_hosts []) ≤ length both_hosts)
to_import-IsAssigned_example = to_import-IsAssigned both_hosts host_rows []

abbrev vm : VsphereVm
vm = record {
  name = text "vm";
  guest_hostname = none;
  ip_addresses = record { address = text "10.0.0.1"; version = 4 } ∷ [];
  os_type = text "Linux";
  power_state = text "on";
  datacenter = none;
  cluster = none;
}

abbrev vm_drawer : VmDrawer
vm_drawer = record {
  step = select;
  connect_loading = false;
  import_loading = false;
  vms =
      record (vm_row vm) { subnet_id = some (text "s") }
      ∷ vm_row (record vm { name = text "not ticked" })
      ∷ [];
  selected_keys = text "vm" ∷ [];
  result = none;
  connect_error = none;
  notices = [];
}

one_checked : map (λ r. r.vm.name) (checked_vms vm_drawer) ≡ text "vm" ∷ []
unfolding checked_vms
one_checked = refl

start_vm_import-IsComplete_example :
    let chosen = chosen_vms vm_drawer.selected_keys vm_drawer.vms in
    (((start_vm_import vm_drawer).1 ≡ some (map import_vm chosen)) × All IsComplete chosen)
    ⊎ (((start_vm_import vm_drawer).1 ≡ none)
        × ((r : VmRow) × (Member r chosen × (is_invalid r ≡ true))))
start_vm_import-IsComplete_example = start_vm_import-IsComplete vm_drawer
