-- ===== src/Integrations/PaloAlto.antt =====
-- frontend/src/pages/Integrations/PaloAltoImportDrawer.tsx
pub mod Rows
pub mod Stepped
use iop.Base.{
  Bool, true, false, List, [], ◌∷◌, ◌++◌, map, Option, none, some, Text, text, text_eq, ◌==◌,
  includes, find, if◌then◌else◌,
}
use iop.Api.{ApiError, Response, resolved, rejected}
use iop.Text.Search.{is_empty}
use iop.Text.Split.{split}
use iop.Address.{first_part}
use iop.Types.PaloAlto.{
  PaloAltoAddress, PaloAltoInterface, PaloAltoArpEntry, PaloAltoDiscoverResult,
  PaloAltoImportAddress, PaloAltoImportResult,
}

pub data RowSource : Type 0 where
  address interface arp : RowSource

pub record SelectionRow : Type 0 where
  pub key : Text
  pub ip_address : Text
  pub name : Text
  pub description : Option Text
  pub source : RowSource
  pub subnet_id : Option Text
  pub environment : Option Text

-- `ipNetmask.split('/')[0] || null`, where the empty text stands for null: both are skipped.
unfoldable pub extract_ip_from_netmask : Option Text → Text
unfolding split
extract_ip_from_netmask none = []
extract_ip_from_netmask (some m) = if is_empty m then [] else first_part (split b'/' m)

-- The row that an address gives, a text that is missing being empty.
abbrev pub address_row : PaloAltoAddress → SelectionRow
address_row a = record {
  key = text "addr-" ++ extract_ip_from_netmask a.ip_netmask;
  ip_address = extract_ip_from_netmask a.ip_netmask;
  name = a.name;
  description = a.description;
  source = address;
  subnet_id = none;
  environment = some (text "Production");
}

abbrev pub or_blank : Option Text → Text
or_blank none = []
or_blank (some t) = t

abbrev pub zone_text : Option Text → Option Text
zone_text none = none
zone_text (some z) = if is_empty z then none else some (text "Zone: " ++ z)

abbrev pub interface_row : PaloAltoInterface → SelectionRow
interface_row i = record {
  key = text "iface-" ++ or_blank i.ip_address;
  ip_address = or_blank i.ip_address;
  name = i.name;
  description = zone_text i.zone;
  source = interface;
  subnet_id = none;
  environment = some (text "Production");
}

abbrev pub arp_row : PaloAltoArpEntry → SelectionRow
arp_row a = record {
  key = text "arp-" ++ a.ip;
  ip_address = a.ip;
  name = if is_empty a.mac then a.ip else a.mac;
  description = some (text "ARP via " ++ a.interface);
  source = arp;
  subnet_id = none;
  environment = some (text "Production");
}

-- A loop of `buildRows` over the addresses seen and the rows pushed before: a row without an
-- address, or with one that was seen, is skipped.
unfoldable pub push_rows :
    List SelectionRow → List Text × List SelectionRow → List Text × List SelectionRow
push_rows [] p = p
push_rows (r ∷ rs) (seen, out) =
    let skipped = push_rows rs (seen, out) in
    let pushed = push_rows rs (r.ip_address ∷ seen, out ++ r ∷ []) in
    if is_empty r.ip_address
    then skipped
    else if includes seen r.ip_address
    then skipped
    else pushed

unfoldable pub build_rows : PaloAltoDiscoverResult → List SelectionRow
unfolding push_rows
build_rows res =
    let addressed = push_rows (map address_row res.addresses) ([], []) in
    let with_interfaces = push_rows (map interface_row res.interfaces) addressed in
    (push_rows (map arp_row res.arp_entries) with_interfaces).1

abbrev pub source_name : RowSource → Text
source_name address = text "address"
source_name interface = text "interface"
source_name arp = text "arp"

abbrev pub or_imported : Option Text → RowSource → Option Text
or_imported none source = some (text "Imported from PaloAlto (" ++ source_name source ++ text ")")
or_imported (some d) source = some d

-- `row.environment ?? 'Production'`
abbrev pub or_production : Option Text → Text
or_production none = text "Production"
or_production (some e) = e

abbrev pub import_of : Option Text → SelectionRow → List PaloAltoImportAddress
import_of none r = []
import_of (some subnet) r =
    if is_empty subnet
    then []
    else record {
      ip_address = r.ip_address;
      subnet_id = subnet;
      hostname = some r.name;
      os_type = some (text "Unknown");
      environment = some (or_production r.environment);
      description = or_imported r.description r.source;
    }
      ∷ []

abbrev pub item_of : SelectionRow → List PaloAltoImportAddress
item_of r = import_of r.subnet_id r

abbrev pub found_item : Option SelectionRow → List PaloAltoImportAddress
found_item none = []
found_item (some r) = item_of r

-- `selectedKeys.flatMap(...)`
unfoldable pub to_import : List Text → List SelectionRow → List PaloAltoImportAddress
to_import [] rows = []
to_import (k ∷ ks) rows = found_item (find (λ r. r.key == k) rows) ++ to_import ks rows

pub data DrawerStep : Type 0 where
  connect select results : DrawerStep

pub data DrawerNotice : Type 0 where
  warned : Text → DrawerNotice
  failed : Text → DrawerNotice

pub record ImportDrawer : Type 0 where
  pub step : DrawerStep
  pub connect_loading : Bool
  pub import_loading : Bool
  pub discovery_result : Option PaloAltoDiscoverResult
  pub rows : List SelectionRow
  pub selected_keys : List Text
  pub result : Option PaloAltoImportResult
  pub connect_error : Option Text
  pub notices : List DrawerNotice

unfoldable pub start_connect : ImportDrawer → ImportDrawer
start_connect s = record s { connect_loading = true; connect_error = none }

-- `detail ?? 'Failed to connect to PaloAlto'`
abbrev pub connect_text : Option Text → Text
connect_text none = text "Failed to connect to PaloAlto"
connect_text (some d) = d

unfoldable pub settle_connect : Response PaloAltoDiscoverResult → ImportDrawer → ImportDrawer
unfolding build_rows
settle_connect (resolved res) s = record s {
  discovery_result = some res;
  rows = build_rows res;
  selected_keys = [];
  step = select;
  connect_loading = false;
}
settle_connect (rejected e) s = record s {
  connect_error = some (connect_text e.detail);
  connect_loading = false;
}

-- `if (toImport.length === 0)`
abbrev pub warn_or_send :
    List PaloAltoImportAddress → ImportDrawer → ImportDrawer × Option (List PaloAltoImportAddress)
warn_or_send [] s = (
  record s { notices = warned (text "Select at least one IP with a subnet assigned") ∷ s.notices },
  none,
)
warn_or_send (a ∷ rest) s = (record s { import_loading = true }, some (a ∷ rest))

-- `handleImport` up to its request.
unfoldable pub start_import : ImportDrawer → ImportDrawer × Option (List PaloAltoImportAddress)
unfolding to_import
start_import s = warn_or_send (to_import s.selected_keys s.rows) s

unfoldable pub settle_import : Response PaloAltoImportResult → ImportDrawer → ImportDrawer
settle_import (resolved r) s = record s { result = some r; step = results; import_loading = false }
settle_import (rejected e) s = record s {
  notices = failed (text "Import failed") ∷ s.notices;
  import_loading = false;
}

-- `handleClose`
unfoldable pub close_drawer : ImportDrawer → ImportDrawer
close_drawer s = record s {
  step = connect;
  discovery_result = none;
  rows = [];
  selected_keys = [];
  result = none;
  connect_error = none;
}

-- The fields of a row that the table edits.
pub data RowField : Type 0 where
  subnet_field environment_field : RowField

abbrev pub set_field : RowField → Text → SelectionRow → SelectionRow
set_field subnet_field value r = record r { subnet_id = some value }
set_field environment_field value r = record r { environment = some value }

-- `rows.map((r) => (r.key === key ? { ...r, [field]: value } : r))`
unfoldable pub update_rows : Text → RowField → Text → List SelectionRow → List SelectionRow
update_rows key field value rows =
    map (λ r. if r.key == key then set_field field value r else r) rows

unfoldable pub update_drawer_row : Text → RowField → Text → ImportDrawer → ImportDrawer
unfolding update_rows
update_drawer_row key field value s = record s { rows = update_rows key field value s.rows }

-- `setSelectedKeys` of the table, and the button back to the first step.
unfoldable pub select_keys : List Text → ImportDrawer → ImportDrawer
select_keys keys s = record s { selected_keys = keys }

unfoldable pub go_back : ImportDrawer → ImportDrawer
go_back s = record s { step = connect }
