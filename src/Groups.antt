-- ===== src/Groups.antt =====
-- routes/Groups.js: the list of groups by pages, a group's card with its polling, and its deals.
pub mod Pages
pub mod Deals
pub mod Polling
pub mod Refresh
pub mod Views
pub mod Rows
pub mod Page
pub mod Buttons
