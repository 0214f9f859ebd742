-- ===== src/Types/Subnet.antt =====
-- frontend/src/types/subnet.ts
use iop.Base.{ℕ, Bool, Option, Text}
use iop.Types.Record.{Environment}

pub data IpVersion : Type 0 where
  v4 v6 : IpVersion

pub record Subnet : Type 0 where
  pub id : Text
  pub cidr : Text
  pub name : Text
  pub description : Option Text
  pub gateway : Option Text
  pub vlan_id : Option ℕ
  pub environment : Environment
  pub parent_id : Option Text
  pub vrf_id : Option Text
  pub prefix_len : ℕ
  pub depth : ℕ
  pub is_container : Bool
  pub child_prefix_count : ℕ
  pub alert_threshold : Option ℕ
  pub ip_version : IpVersion
  pub created_at : Text
  pub updated_at : Text
  pub created_by : Text
  pub updated_by : Text

pub record SubnetDetail : Type 0 where
  pub subnet : Subnet
  pub open subnet use *
  pub total_ips : ℕ
  pub used_ips : ℕ
  pub free_ips : ℕ
  pub reserved_ips : ℕ

pub record SubnetCreate : Type 0 where
  pub cidr : Text
  pub name : Text
  pub description : Option Text
  pub gateway : Option Text
  pub vlan_id : Option ℕ
  pub environment : Environment
  pub parent_id : Option Text
  pub vrf_id : Option Text
  pub alert_threshold : Option ℕ
  pub ip_version : Option IpVersion

pub record SubnetUpdate : Type 0 where
  pub name : Option Text
  pub description : Option Text
  pub gateway : Option Text
  pub vlan_id : Option ℕ
  pub environment : Option Environment
  pub vrf_id : Option Text
  pub alert_threshold : Option ℕ
