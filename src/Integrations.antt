-- ===== src/Integrations.antt =====
-- The drawers of frontend/src/pages/Integrations, which import addresses from other systems.
pub mod Chosen
pub mod Drawer
pub mod Assigned
pub mod PaloAlto
pub mod Vsphere
mod Tests
