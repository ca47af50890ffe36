-- ===== src/GroupPage.antt =====
-- `Group` of routes/Group.js, the page of one group.
pub mod Page
pub mod Steps
pub mod First
pub mod Polls
pub mod Elsewhere
pub mod Visits
pub mod View
