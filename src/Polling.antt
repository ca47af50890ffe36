-- ===== src/Polling.antt =====
-- The intervals with which the pages ask the node, and what they ask it for.
pub mod Effects
pub mod Load
