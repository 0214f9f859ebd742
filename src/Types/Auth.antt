-- ===== src/Types/Auth.antt =====
-- frontend/src/types/auth.ts
use iop.Base.{ℕ, Text}

pub data Role : Type 0 where
  viewer operator administrator super_admin : Role

pub record TokenResponse : Type 0 where
  pub access_token : Text
  pub token_type : Text
  pub expires_in : ℕ
  pub role : Role
  pub full_name : Text
