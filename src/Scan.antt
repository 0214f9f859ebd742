-- ===== src/Scan.antt =====
-- frontend/src/pages/NetworkScan/NetworkScanPage.tsx
pub mod Lookup
pub mod Cidrs
pub mod Estimate
pub mod Page
pub mod Selection
pub mod Import
pub mod Groups
pub mod Review
pub mod Progress
mod Tests
