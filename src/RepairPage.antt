-- ===== src/RepairPage.antt =====
-- `Repair` of routes/Repair.js.
pub mod Page
pub mod Rates
pub mod Bars
