-- ===== src/Types/PaloAlto.antt =====
-- The interfaces of frontend/src/types/integrations.ts for the PaloAlto check and import.
use iop.Base.{ℕ, Bool, List, Option, Text}

pub record PaloAltoCheckMatch : Type 0 where
  pub host : Text
  pub address_name : Option Text
  pub description : Option Text
  pub tags : List Text
  pub ip_netmask : Option Text
  pub mac : Option Text
  pub interface : Option Text
  pub zone : Option Text
  pub arp_status : Option Text
  pub ttl : Option Text

pub record PaloAltoNatMatch : Type 0 where
  pub host : Text
  pub rule_name : Text
  pub roles : List Text
  pub from_zones : List Text
  pub to_zones : List Text
  pub original_source : List Text
  pub original_destination : List Text
  pub translated_source : Option Text
  pub translated_destination : Option Text
  pub disabled : Bool

pub record PaloAltoSecurityMatch : Type 0 where
  pub host : Text
  pub rule_name : Text
  pub roles : List Text
  pub action : Text
  pub from_zones : List Text
  pub to_zones : List Text
  pub source : List Text
  pub destination : List Text
  pub applications : List Text
  pub services : List Text
  pub tags : List Text
  pub disabled : Bool

pub record PaloAltoCheckResult : Type 0 where
  pub ip_address : Text
  pub found : Bool
  pub hostname : Option Text
  pub matches : List PaloAltoCheckMatch
  pub nat_matches : List PaloAltoNatMatch
  pub security_matches : List PaloAltoSecurityMatch
  pub security_matches_total : ℕ
  pub log : List Text
  pub errors : List Text

pub record PaloAltoBulkSaveResult : Type 0 where
  pub created : ℕ
  pub updated : ℕ
  pub skipped : ℕ
  pub errors : List Text

pub record PaloAltoRuleHit : Type 0 where
  pub rule_name : Text
  pub rule_type : Text
  pub hit_count : ℕ

-- The utilisation is in tenths of a percent.
pub record PaloAltoScanSubnetResult : Type 0 where
  pub subnet_cidr : Text
  pub scanned : ℕ
  pub found : ℕ
  pub created : ℕ
  pub updated : ℕ
  pub skipped : ℕ
  pub utilization_pct : ℕ
  pub errors : List Text
  pub top_rules : List PaloAltoRuleHit

pub record PaloAltoAddress : Type 0 where
  pub name : Text
  pub ip_netmask : Option Text
  pub ip_range : Option Text
  pub description : Option Text
  pub tags : List Text
  pub address_type : Text

pub record PaloAltoInterface : Type 0 where
  pub name : Text
  pub ip_address : Option Text
  pub zone : Option Text
  pub state : Text

pub record PaloAltoArpEntry : Type 0 where
  pub ip : Text
  pub mac : Text
  pub interface : Text
  pub status : Text
  pub ttl : Text

pub record PaloAltoDiscoverResult : Type 0 where
  pub addresses : List PaloAltoAddress
  pub interfaces : List PaloAltoInterface
  pub arp_entries : List PaloAltoArpEntry

pub record PaloAltoImportAddress : Type 0 where
  pub ip_address : Text
  pub subnet_id : Text
  pub hostname : Option Text
  pub os_type : Option Text
  pub environment : Option Text
  pub description : Option Text

pub record PaloAltoImportResult : Type 0 where
  pub created : ℕ
  pub skipped : ℕ
  pub errors : List Text

pub record PaloAltoSaveResult : Type 0 where
  pub action : Text
  pub ip_record_id : Text
  pub subnet_cidr : Text
  pub hostname : Option Text
  pub status : Text

pub record PaloAltoCheckLogEntry : Type 0 where
  pub ip_address : Text
  pub found : Bool
  pub hostname : Option Text
  pub log : List Text
  pub matches_count : ℕ
  pub nat_matches_count : ℕ
  pub security_matches_total : ℕ
  pub source : Text
  pub checked_by : Text
  pub checked_at : Text

pub record PaloAltoTrafficLogEntry : Type 0 where
  pub host : Text
  pub time_generated : Text
  pub src : Text
  pub dst : Text
  pub sport : Option ℕ
  pub dport : Option ℕ
  pub proto : Option Text
  pub app : Option Text
  pub action : Option Text
  pub rule : Option Text
  pub from_zone : Option Text
  pub to_zone : Option Text
  pub bytes : Option ℕ
  pub bytes_sent : Option ℕ
  pub bytes_received : Option ℕ
  pub elapsed : Option ℕ
  pub session_end_reason : Option Text

pub record PaloAltoTrafficLogResult : Type 0 where
  pub ip_address : Text
  pub days : ℕ
  pub entries : List PaloAltoTrafficLogEntry
  pub truncated : Bool
  pub errors : List Text

pub record PingResult : Type 0 where
  pub ip_address : Text
  pub reachable : Bool
  pub method : Text
  pub latency_ms : Option ℕ
  pub status_updated : Bool
  pub new_status : Option Text
  pub scan_source : Option Text
  pub device_name : Option Text
