-- ===== src/Types/User.antt =====
-- frontend/src/types/user.ts
use iop.Base.{Bool, Option, Text}
use iop.Types.Auth.{Role}

pub data ApprovalStatus : Type 0 where
  pending approved turned_down : ApprovalStatus

pub record User : Type 0 where
  pub id : Text
  pub username : Text
  pub full_name : Text
  pub email : Option Text
  pub role : Role
  pub is_active : Bool
  pub approval_status : ApprovalStatus
  pub registration_note : Option Text
  pub rejection_reason : Option Text
  pub created_at : Text
  pub updated_at : Text
  pub created_by : Text
  pub last_login : Option Text

pub record UserCreate : Type 0 where
  pub username : Text
  pub password : Text
  pub full_name : Text
  pub email : Option Text
  pub role : Role

pub record UserUpdate : Type 0 where
  pub full_name : Option Text
  pub email : Option Text
  pub role : Option Role
