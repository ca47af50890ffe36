-- ===== src/ProviderPage.antt =====
-- `Provider` of routes/Provider.js, the page of one storage provider.
pub mod Page
pub mod Rows
pub mod Mounted
pub mod Visits
