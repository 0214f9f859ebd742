-- ===== src/Integrations/Assigned.antt =====
-- frontend/src/pages/Integrations/Device42ImportDrawer.tsx and
-- frontend/src/pages/Integrations/ZabbixImportDrawer.tsx, whose drawers differ in their rows, in
-- what they send and in their texts.
pub mod Sent
use iop.Base.{
  ℕ, Bool, true, false, List, [], ◌∷◌, map, Option, none, some, Text, text, if◌then◌else◌,
}
use iop.Api.{Response, resolved, rejected}
use iop.Text.Search.{is_empty}
use iop.Integrations.PaloAlto.{or_production}
use iop.Integrations.Chosen.{chosen_items}
use iop.Integrations.Drawer.{Drawer, finish_connect, begin_import, edit_rows}

pub record Device42Ip : Type 0 where
  pub ip_address : Text
  pub hostname : Option Text
  pub device_name : Option Text
  pub os_type : Text
  pub subnet : Option Text
  pub mac_address : Option Text
  pub label : Option Text
  pub available : Bool

pub record Device42ImportIp : Type 0 where
  pub ip_address : Text
  pub subnet_id : Text
  pub hostname : Option Text
  pub os_type : Option Text
  pub environment : Option Text
  pub device_name : Option Text

pub record Device42ImportResult : Type 0 where
  pub created : ℕ
  pub skipped : ℕ
  pub errors : List Text

pub record ZabbixHost : Type 0 where
  pub ip_address : Text
  pub hostname : Option Text
  pub device_name : Option Text
  pub zabbix_status : Text
  pub available : Bool

pub record ZabbixImportIp : Type 0 where
  pub ip_address : Text
  pub subnet_id : Text
  pub hostname : Option Text
  pub environment : Option Text
  pub device_name : Option Text

pub record ZabbixImportResult : Type 0 where
  pub created : ℕ
  pub skipped : ℕ
  pub errors : List Text

-- A found address or host, with what the user assigns to it.
pub record AssignedRow (Host : Type 0) : Type 0 where
  pub host : Host
  pub subnet_id : Option Text
  pub environment : Option Text

-- `{ ...ip, environment: 'Production' }`
abbrev pub in_production : {Host : Type 0} → Host → AssignedRow Host
in_production h = record { host = h; subnet_id = none; environment = some (text "Production") }

abbrev pub fetched_rows :
    {Host : Type 0} → Response (List Host) → Response (List (AssignedRow Host))
fetched_rows (resolved hosts) = resolved (map in_production hosts)
fetched_rows (rejected e) = rejected e

abbrev pub device42_key : AssignedRow Device42Ip → Text
device42_key r = r.host.ip_address

abbrev pub device42_item : Option Text → AssignedRow Device42Ip → List Device42ImportIp
device42_item none r = []
device42_item (some subnet) r =
    if is_empty subnet
    then []
    else record {
      ip_address = r.host.ip_address;
      subnet_id = subnet;
      hostname = r.host.hostname;
      os_type = some r.host.os_type;
      environment = some (or_production r.environment);
      device_name = r.host.device_name;
    }
      ∷ []

unfoldable pub device42_to_import :
    List Text → List (AssignedRow Device42Ip) → List Device42ImportIp
unfolding chosen_items
device42_to_import keys rows =
    chosen_items device42_key (λ r. device42_item r.subnet_id r) keys rows

abbrev pub Device42Drawer : Type 0
Device42Drawer = Drawer (AssignedRow Device42Ip) Device42ImportResult

unfoldable pub device42_connected : Response (List Device42Ip) → Device42Drawer → Device42Drawer
unfolding finish_connect
device42_connected answer s =
    finish_connect (text "Failed to connect to Device42") (fetched_rows answer) s

unfoldable pub device42_import : Device42Drawer → Device42Drawer × Option (List Device42ImportIp)
unfolding begin_import device42_to_import
device42_import s =
    begin_import (text "Select at least one IP with a subnet assigned")
      (device42_to_import s.selected_keys s.rows) s

abbrev pub zabbix_key : AssignedRow ZabbixHost → Text
zabbix_key r = r.host.ip_address

abbrev pub zabbix_item : Option Text → AssignedRow ZabbixHost → List ZabbixImportIp
zabbix_item none r = []
zabbix_item (some subnet) r =
    if is_empty subnet
    then []
    else record {
      ip_address = r.host.ip_address;
      subnet_id = subnet;
      hostname = r.host.hostname;
      environment = some (or_production r.environment);
      device_name = r.host.device_name;
    }
      ∷ []

unfoldable pub zabbix_to_import : List Text → List (AssignedRow ZabbixHost) → List ZabbixImportIp
unfolding chosen_items
zabbix_to_import keys rows = chosen_items zabbix_key (λ r. zabbix_item r.subnet_id r) keys rows

abbrev pub ZabbixDrawer : Type 0
ZabbixDrawer = Drawer (AssignedRow ZabbixHost) ZabbixImportResult

unfoldable pub zabbix_connected : Response (List ZabbixHost) → ZabbixDrawer → ZabbixDrawer
unfolding finish_connect
zabbix_connected answer s =
    finish_connect (text "Failed to connect to Zabbix") (fetched_rows answer) s

unfoldable pub zabbix_import : ZabbixDrawer → ZabbixDrawer × Option (List ZabbixImportIp)
unfolding begin_import zabbix_to_import
zabbix_import s =
    begin_import (text "Select at least one host with a subnet assigned")
      (zabbix_to_import s.selected_keys s.rows) s

-- The fields of a row that the tables edit.
abbrev pub assign_subnet : {Host : Type 0} → Text → AssignedRow Host → AssignedRow Host
assign_subnet value r = record r { subnet_id = some value }

abbrev pub assign_environment : {Host : Type 0} → Text → AssignedRow Host → AssignedRow Host
assign_environment value r = record r { environment = some value }
