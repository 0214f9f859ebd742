-- ===== src/Types/Vault.antt =====
-- frontend/src/types/vault.ts
use iop.Base.{ℕ, List, Option, Text}

pub record Folder : Type 0 where
  pub id : Text
  pub cabinet_id : Text
  pub parent_id : Option Text
  pub name : Text
  pub created_at : Text
  pub updated_at : Text
  pub created_by : Text
  pub updated_by : Text

pub record Cabinet : Type 0 where
  pub id : Text
  pub name : Text
  pub description : Option Text
  pub member_usernames : List Text
  pub entry_count : ℕ
  pub created_at : Text
  pub updated_at : Text
  pub created_by : Text
  pub updated_by : Text

pub record CabinetCreate : Type 0 where
  pub name : Text
  pub description : Option Text
  pub member_usernames : List Text

pub record CabinetUpdate : Type 0 where
  pub name : Text
  pub description : Option Text

pub record FolderCreate : Type 0 where
  pub cabinet_id : Text
  pub parent_id : Option Text
  pub name : Text

pub record FolderUpdate : Type 0 where
  pub name : Text
