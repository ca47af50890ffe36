-- ===== src/Providers.antt =====
-- routes/Providers.js: the table of storage providers.
pub mod Page
pub mod Refresh
pub mod Percentages
pub mod Rows
pub mod Csv
pub mod Download
