-- ===== src/Types/Scan.antt =====
-- The interfaces of frontend/src/api/scan.ts. Durations are in tenths of a second, to which
-- the server rounds them.
use iop.Base.{ℕ, Bool, true, false, List, Option, Text, text}
use iop.Types.Record.{PowerState}

pub data ScanMode : Type 0 where
  quick standard deep : ScanMode

pub record ScanRequest : Type 0 where
  pub cidr : Text
  pub mode : ScanMode

pub record DiscoveredHost : Type 0 where
  pub ip_address : Text
  pub hostname : Option Text
  pub os_hint : Option Text
  pub open_ports : List ℕ
  pub power_state : Option PowerState

pub record ScanResult : Type 0 where
  pub cidr : Text
  pub mode : Text
  pub total_scanned : ℕ
  pub discovered : List DiscoveredHost
  pub duration_seconds : ℕ

pub record DiscoverScanRequest : Type 0 where
  pub cidrs : List Text
  pub mode : ScanMode
  pub save_inactive : Bool
  pub overwrite_status : Bool

pub record DiscoverScanResult : Type 0 where
  pub total_scanned : ℕ
  pub total_discovered : ℕ
  pub created : ℕ
  pub updated : ℕ
  pub skipped : ℕ
  pub errors : List Text
  pub duration_seconds : ℕ
  pub created_ips : List Text
  pub updated_ips : List Text
  pub auto_created_subnets : ℕ
  pub auto_created_subnet_cidrs : List Text

pub record ScanModeInfo : Type 0 where
  pub key : ScanMode
  pub label : Text
  pub description : Text
  pub detail : Text
  pub max_hosts : ℕ
  pub max_cidr : Text
  pub os_detect : Bool
  pub hostname : Bool
  pub ports : ℕ
  pub color : Text

-- `SCAN_MODES`, by the key of the entry.
abbrev pub scan_mode_info : ScanMode → ScanModeInfo
scan_mode_info quick = record {
  key = quick;
  label = text "Quick";
  description = text "Host discovery only";
  detail = text "4 ports checked • No OS detection • No hostname lookup";
  max_hosts = 4094;
  max_cidr = text "/20";
  os_detect = false;
  hostname = false;
  ports = 4;
  color = text "#63e2b7";
}
scan_mode_info standard = record {
  key = standard;
  label = text "Standard";
  description = text "Balanced — OS + hostname";
  detail = text "14 ports checked • OS detection • Hostname lookup";
  max_hosts = 1022;
  max_cidr = text "/22";
  os_detect = true;
  hostname = true;
  ports = 14;
  color = text "#63e2b7";
}
scan_mode_info deep = record {
  key = deep;
  label = text "Deep";
  description = text "Full port coverage";
  detail = text "35 ports checked • Full OS detection • Hostname lookup • Open ports list";
  max_hosts = 254;
  max_cidr = text "/24";
  os_detect = true;
  hostname = true;
  ports = 35;
  color = text "#63e2b7";
}
