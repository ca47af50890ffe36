-- ===== src/Content.antt =====
-- routes/Content.js: the page that finds the groups of a CID.
pub mod Page
pub mod Clicks
pub mod Searches
