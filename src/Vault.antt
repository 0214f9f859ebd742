-- ===== src/Vault.antt =====
-- The password vault: frontend/src/pages/Vault.
pub mod Folders
pub mod Reveal
pub mod Generator
pub mod Cabinet
pub mod FolderActions
mod Tests
