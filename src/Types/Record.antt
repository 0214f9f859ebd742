-- ===== src/Types/Record.antt =====
-- frontend/src/types/ipRecord.ts and frontend/src/types/common.ts
use iop.Base.{ℕ, List, Option, Text}

pub data OsType : Type 0 where
  aix linux windows mac_os open_shift unknown : OsType

pub data IpStatus : Type 0 where
  free reserved in_use : IpStatus

pub data Environment : Type 0 where
  production staging uat qa test development dr lab : Environment

pub data PowerState : Type 0 where
  on off : PowerState

pub record IpRecord : Type 0 where
  pub id : Text
  pub ip_address : Text
  pub hostname : Option Text
  pub os_type : OsType
  pub subnet_id : Text
  pub status : IpStatus
  pub environment : Environment
  pub power_state : Option PowerState
  pub owner : Option Text
  pub description : Option Text
  pub created_at : Text
  pub updated_at : Text
  pub created_by : Text
  pub updated_by : Text
  pub reserved_at : Option Text
  pub reserved_by : Option Text

pub record IpRecordCreate : Type 0 where
  pub ip_address : Text
  pub hostname : Option Text
  pub os_type : OsType
  pub subnet_id : Text
  pub status : Option IpStatus
  pub environment : Environment
  pub owner : Option Text
  pub description : Option Text

pub record IpRecordUpdate : Type 0 where
  pub hostname : Option Text
  pub os_type : Option OsType
  pub status : Option IpStatus
  pub environment : Option Environment
  pub owner : Option Text
  pub description : Option Text

pub record IpRecordFilters : Type 0 where
  pub subnet_id : Option Text
  pub status : Option IpStatus
  pub os_type : Option OsType
  pub environment : Option Environment
  pub owner : Option Text
  pub search : Option Text
  pub page : Option ℕ
  pub page_size : Option ℕ

-- One page of a list, with the number of items on all pages.
pub record PaginatedResponse (A : Type 0) : Type 0 where
  pub items : List A
  pub total : ℕ
  pub page : ℕ
  pub page_size : ℕ
  pub pages : ℕ
